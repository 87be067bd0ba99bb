-- ===== src/Prelogin/RoundTrip.antt =====
-- What createOptions of lib/prelogin-payload.js builds, read by extractOptions; and the loop of extractOptions.
use tedious.Prelude.{
  ℕ, zero, suc, ◌+◌, ◌≤◌, ◌≡◌, refl, ap, ◌∙◌, Bool, true, false, Option, none, some, [], ◌∷◌, arith,
  length, get_elem?, ◌==◌, if◌then◌else◌,
}
use tedious.Buffer.{Buffer, le, to_le, be, to_be}
use tedious.Buffer.Endian.{le-to_le, be-to_be}
use tedious.Prelogin.{
  Extraction, out_of_rounds, out_of_range, read, at_entry, and_next, read_u16, Version,
  PreloginOptions, Prelogin, encrypt_by_value, mars_by_value, laid_out, extracted, create_options,
  place_options, total_option_length, extract_options, extract_loop, extract_option, prelogin,
}
use tedious.Prelogin.Built.{Fits, options_of, all_options_lem}

-- What is read of a version, byte by byte.
version_read : Version → Version
version_read v = record {
  major = le (to_le 1 v.major);
  minor = le (to_le 1 v.minor);
  build = be (to_be 2 v.build);
  subbuild = be (to_be 2 v.subbuild);
}

abbrev pub read_back : Version → Bool → Prelogin
read_back v encrypt = record {
  version = some v;
  encryption = some (if encrypt then 1 else 2);
  encryption_string = encrypt_by_value (if encrypt then 1 else 2);
  instance_option = some 0;
  thread_id = some 0;
  mars = some 0;
  mars_string = mars_by_value 0;
  fed_auth_required = some 1;
}

read_laid_out :
    (v : Version) (encrypt : Bool)
    → extracted (laid_out (some (options_of (record { encrypt = encrypt; version = v }))))
      ≡ some (read_back (version_read v) encrypt)
unfolding extract_options extract_loop extract_option place_options total_option_length to_le to_be
    le be version_read
read_laid_out v true = refl
read_laid_out v false = refl

version_read_lem : (v : Version) → Fits v → version_read v ≡ v
unfolding version_read
version_read_lem v h =
    rw
      (
        le-to_le 1 v.major h.major,
        le-to_le 1 v.minor h.minor,
        be-to_be 2 v.build h.build,
        be-to_be 2 v.subbuild h.subbuild,
      )
      refl

-- For a version whose numbers fit their widths (a byte for major and minor, two for build and subbuild),
-- the constructor builds the options and reads back of them the same version, the encryption ON or
-- NOT_SUP as `encrypt` says, the instance and the thread id 0, MARS OFF, and that federated authentication
-- is required.
pub prelogin_lem :
    (o : PreloginOptions) → Fits o.version → prelogin o ≡ some (read_back o.version o.encrypt)
unfolding prelogin create_options
prelogin_lem o h =
    ap (λ os. extracted (laid_out os)) (all_options_lem o h)
    ∙ read_laid_out o.version o.encrypt
    ∙ ap (λ v. some (read_back v o.encrypt)) (version_read_lem o.version h)

none_behind : (buf : Buffer) (offset : ℕ) → length buf ≤ offset → get_elem? buf offset ≡ none
none_behind [] offset h = refl
none_behind (b ∷ bs) zero h = absurd (omega arith)
none_behind (b ∷ bs) (suc offset) h = none_behind bs offset (omega arith)

abbrev pub Ends : Extraction → Type 0
Ends out_of_rounds = ⊥
Ends e = Unit {0}

-- The loop of extractOptions ends, with a RangeError or with what it has read: more rounds than there are bytes behind the offset are
-- never used up.
pub extract_loop-Ends :
    (fuel : ℕ) (buf : Buffer) (offset : ℕ) (p : Prelogin)
    → length buf ≤ offset + fuel
    → Ends (extract_loop (suc fuel) buf offset p)
unfolding extract_loop
extract_loop-Ends zero buf offset p h =
    rw (Ends, extract_loop, none_behind buf offset (omega arith)) tt
extract_loop-Ends (suc fuel) buf offset p h =
    cases (get_elem? buf offset) λ q. extract_loop-Ends fuel buf (offset + 5) q (omega arith)
  where
    next :
        ((q : Prelogin) → Ends (extract_loop (suc fuel) buf (offset + 5) q))
        → (o : Option Prelogin) → Ends (and_next o (extract_loop (suc fuel) buf (offset + 5)))
    next k none = tt
    next k (some q) = k q

    round :
        ((q : Prelogin) → Ends (extract_loop (suc fuel) buf (offset + 5) q))
        → (token : ℕ) (a c : Option ℕ)
        → Ends (
            at_entry a c λ data_offset data_length.
              and_next
                (extract_option token buf data_offset data_length p)
                (extract_loop (suc fuel) buf (offset + 5)))
    round k token none c = tt
    round k token (some x) none = tt
    round k token (some x) (some y) = next k (extract_option token buf x y p)

    last : (b : Bool) (e : Extraction) → Ends e → Ends (if b then read p else e)
    last true e k = tt
    last false e k = k

    cases :
        (o : Option ℕ)
        → ((q : Prelogin) → Ends (extract_loop (suc fuel) buf (offset + 5) q))
        → Ends (elim o [
          | none ↦ out_of_range
          | some token ↦
              if token == 0xFF
              then read p
              else at_entry
                  (read_u16 buf (offset + 1))
                  (read_u16 buf (offset + 3))
                  λ data_offset data_length.
                    and_next
                      (extract_option token buf data_offset data_length p)
                      (extract_loop (suc fuel) buf (offset + 5))
        ])
    cases none k = tt
    cases (some token) k =
        last (token == 0xFF) _
          (round k token (read_u16 buf (offset + 1)) (read_u16 buf (offset + 3)))
