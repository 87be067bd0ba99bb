-- ===== src/Guid/RoundTrip.antt =====
-- lib/guid-parser.js: the text of 16 bytes, read back.
use tedious.Prelude.{
  ℕ, ◌+◌, ◌*◌, ◌/◌, ◌%◌, ◌<◌, ◌≡◌, refl, ap, ◌∙◌, ◌⊎◌, inl, inr, Option, some, List, [], ◌∷◌, map,
  All, arith,
}
use tedious.Buffer.{Buffer}
use tedious.Guid.{
  hex_digit, digit_value, guid_to_array, guid_text, buffer_to_upper_case_guid,
  buffer_to_lower_case_guid, char_code_map, cons_byte,
}

-- The two offsets of letters, of the upper and of the lower case.
abbrev IsLetters : ℕ → Type 0
IsLetters letters = (letters ≡ 55) ⊎ (letters ≡ 87)

digit_value-hex_digit :
    (letters d : ℕ) → IsLetters letters → d < 16 → digit_value (hex_digit letters d) ≡ some d
unfolding digit_value
digit_value-hex_digit letters d (inl e) h = ground arith
digit_value-hex_digit letters d (inr e) h = ground arith

-- One byte of the text.
byte-hex :
    (letters b : ℕ) (rest : List (Option ℕ))
    → IsLetters letters
    → b < 256
    → cons_byte
        (char_code_map
          (digit_value (hex_digit letters (b / 16)))
          (digit_value (hex_digit letters (b % 16))))
        (some rest)
      ≡ some (some b ∷ rest)
byte-hex letters b rest h k =
    rw
      (
        digit_value-hex_digit letters (b / 16) h (omega arith),
        digit_value-hex_digit letters (b % 16) h (omega arith),
      )
      (ap (λ v. some (some v ∷ rest)) whole)
  where
    whole : b / 16 * 16 + b % 16 ≡ b
    whole = omega arith

byte_then :
    (letters b : ℕ) (rest : List (Option ℕ)) (more : Option (List (Option ℕ)))
    → IsLetters letters
    → b < 256
    → more ≡ some rest
    → cons_byte
        (char_code_map
          (digit_value (hex_digit letters (b / 16)))
          (digit_value (hex_digit letters (b % 16))))
        more
      ≡ some (some b ∷ rest)
byte_then letters b rest more l h e = ap (cons_byte _) e ∙ byte-hex letters b rest l h

module _ (b0 b1 b2 b3 b4 b5 b6 b7 b8 b9 b10 b11 b12 b13 b14 b15 : ℕ) where
  abbrev pub sixteen : Buffer
  sixteen = b0 ∷ b1 ∷ b2 ∷ b3 ∷ b4 ∷ b5 ∷ b6 ∷ b7 ∷ b8 ∷ b9 ∷ b10 ∷ b11 ∷ b12 ∷ b13 ∷ b14 ∷ b15 ∷ []

  guid_to_array-guid_text :
      (letters : ℕ)
      → IsLetters letters
      → All (λ b. b < 256) sixteen
      → guid_to_array (guid_text letters sixteen) ≡ some (map some sixteen)
  unfolding guid_to_array
  guid_to_array-guid_text letters l h = byte_then letters b0 _ _ l (h.0) (
      byte_then letters b1 _ _ l (h.1.0) (
        byte_then letters b2 _ _ l (h.1.1.0) (
          byte_then letters b3 _ _ l (h.1.1.1.0) (
            byte_then letters b4 _ _ l (h.1.1.1.1.0) (
              byte_then letters b5 _ _ l (h.1.1.1.1.1.0) (
                byte_then letters b6 _ _ l (h.1.1.1.1.1.1.0) (
                  byte_then letters b7 _ _ l (h.1.1.1.1.1.1.1.0) (
                    byte_then letters b8 _ _ l (h.1.1.1.1.1.1.1.1.0) (
                      byte_then letters b9 _ _ l (h.1.1.1.1.1.1.1.1.1.0) (
                        byte_then letters b10 _ _ l (h.1.1.1.1.1.1.1.1.1.1.0) (
                          byte_then letters b11 _ _ l (h.1.1.1.1.1.1.1.1.1.1.1.0) (
                            byte_then letters b12 _ _ l (h.1.1.1.1.1.1.1.1.1.1.1.1.0) (
                              byte_then letters b13 _ _ l (h.1.1.1.1.1.1.1.1.1.1.1.1.1.0) (
                                byte_then letters b14 _ _ l (h.1.1.1.1.1.1.1.1.1.1.1.1.1.1.0) (
                                  byte_then letters b15 _ _ l (h.1.1.1.1.1.1.1.1.1.1.1.1.1.1.1.0)
                                    (refl))))))))))))))))

  -- For 16 bytes, guidToArray reads the text of bufferToLowerCaseGuid back: every byte, in its place.
  pub guid_to_array-buffer_to_lower_case_guid :
      All (λ b. b < 256) sixteen
      → guid_to_array (buffer_to_lower_case_guid sixteen) ≡ some (map some sixteen)
  unfolding buffer_to_lower_case_guid
  guid_to_array-buffer_to_lower_case_guid h = guid_to_array-guid_text 87 (inr refl) h

  -- For 16 bytes, guidToArray reads the text of bufferToUpperCaseGuid back: every byte, in its place.
  pub guid_to_array-buffer_to_upper_case_guid :
      All (λ b. b < 256) sixteen
      → guid_to_array (buffer_to_upper_case_guid sixteen) ≡ some (map some sixteen)
  unfolding buffer_to_upper_case_guid
  guid_to_array-buffer_to_upper_case_guid h = guid_to_array-guid_text 55 (inl refl) h
