-- ===== src/LoginPayload/Points.antt =====
-- The texts of a login of lib/login7-payload.js, found through the table in its head.
use tedious.Prelude.{
  ℕ, zero, suc, ◌+◌, ◌-◌, ◌^◌, ◌<◌, ◌≡◌, refl, sym, ap, ◌∙◌, Option, none, some, List, [], ◌∷◌,
  ◌++◌, append_assoc, length, length-append, take, drop, drop-length-append, take-length-append,
  length-map, arith,
}
use tedious.Buffer.{Buffer, JsString, slice, to_le, ucs2_bytes}
use tedious.Buffer.Endian.{length-to_le}
use tedious.LoginPayload.{
  Login7Payload, to_buffer, text_of, scramble_byte, scramble_password, build_feature_ext,
}
use tedious.LoginPayload.Layout.{Field, heads, contents, total_advance, text_field}
use tedious.LoginPayload.Sent.{IsInRange, fields, login_layout, length-heads, to_buffer_lem}

-- At `at` there are an offset and the length of the text, and at that offset its bytes.
abbrev pub Points : Buffer → ℕ → JsString → Buffer → Type 0
Points buf at s bytes =
    (offset : ℕ) × (slice buf at (at + 4) ≡ to_le 2 offset ++ to_le 2 (length s))
    × (slice buf offset (offset + length bytes) ≡ bytes)

abbrev IsBalanced : List Field → Type 0
IsBalanced [] = Unit {0}
IsBalanced (x ∷ xs) = ((o : ℕ) → length (x.content o) ≡ x.advance) × IsBalanced xs

take-IsBalanced : (k : ℕ) (xs : List Field) → IsBalanced xs → IsBalanced (take k xs)
take-IsBalanced zero xs h = tt
take-IsBalanced (suc k) [] h = tt
take-IsBalanced (suc k) (x ∷ xs) h = (h.0, take-IsBalanced k xs h.1)

length-contents :
    (o : ℕ) (xs : List Field) → IsBalanced xs → length (contents o xs) ≡ total_advance xs
length-contents o [] h = refl
length-contents o (x ∷ xs) h = omega (
  arith,
  length-append (x.content o) (contents (o + x.advance) xs),
  h.0 o,
  length-contents (o + x.advance) xs h.1,
)

the_same : (n : ℕ) → n ≡ n + 0
the_same n = omega arith

moved : (a b c : ℕ) → a + b + c ≡ a + (b + c)
moved a b c = omega arith

heads-append :
    (o : ℕ) (xs ys : List Field)
    → heads o (xs ++ ys) ≡ heads o xs ++ heads (o + total_advance xs) ys
heads-append o [] ys = ap (λ n. heads n ys) (the_same o)
heads-append o (x ∷ xs) ys =
    ap (λ b. x.head o ++ b) (heads-append (o + x.advance) xs ys)
    ∙ sym (
        append_assoc (x.head o) (heads (o + x.advance) xs)
          (heads (o + x.advance + total_advance xs) ys))
    ∙ ap (λ n. x.head o ++ heads (o + x.advance) xs ++ heads n ys)
        (moved o x.advance (total_advance xs))

contents-append :
    (o : ℕ) (xs ys : List Field)
    → contents o (xs ++ ys) ≡ contents o xs ++ contents (o + total_advance xs) ys
contents-append o [] ys = ap (λ n. contents n ys) (the_same o)
contents-append o (x ∷ xs) ys =
    ap (λ b. x.content o ++ b) (contents-append (o + x.advance) xs ys)
    ∙ sym (
        append_assoc (x.content o) (contents (o + x.advance) xs)
          (contents (o + x.advance + total_advance xs) ys))
    ∙ ap (λ n. x.content o ++ contents (o + x.advance) xs ++ contents n ys)
        (moved o x.advance (total_advance xs))

slice_at :
    (a m b buf : Buffer) (at n : ℕ)
    → length a ≡ at
    → length m ≡ n
    → buf ≡ a ++ (m ++ b)
    → slice buf at (at + n) ≡ m
slice_at a m b buf at n e e' e'' =
    ap (λ x. slice x at (at + n)) e''
    ∙ ap (λ k. take k (drop at (a ++ (m ++ b)))) (width at n)
    ∙ ap (λ k. take n (drop k (a ++ (m ++ b)))) (sym e)
    ∙ ap (take n) (drop-length-append a (m ++ b))
    ∙ ap (λ k. take k (m ++ b)) (sym e')
    ∙ take-length-append m b
  where
    width : (x y : ℕ) → x + y - x ≡ y
    width x y = omega arith

-- A text among fields that move the offsets by what they push.
found_at :
    (size : ℕ) (xs ys : List Field) (scramble : Buffer → Buffer) (s : JsString)
    → IsBalanced xs
    → length (heads 94 (xs ++ (text_field scramble s ∷ ys))) ≡ 90
    → Points
        (to_le 4 size
          ++ (heads 94 (xs ++ (text_field scramble s ∷ ys))
              ++ contents 94 (xs ++ (text_field scramble s ∷ ys))))
        (4 + length (heads 94 xs))
        s
        (scramble (ucs2_bytes s))
found_at size xs ys scramble s h e = (
  94 + total_advance xs,
  slice_at (to_le 4 size ++ heads 94 xs) (to_le 2 (94 + total_advance xs) ++ to_le 2 (length s))
      (heads (94 + total_advance xs + length (ucs2_bytes s)) ys ++ contents 94 all) buf
      (4 + length (heads 94 xs)) 4
      (omega (arith, length-append (to_le 4 size) (heads 94 xs), length-to_le 4 size))
      (omega (
        arith,
        length-append (to_le 2 (94 + total_advance xs)) (to_le 2 (length s)),
        length-to_le 2 (94 + total_advance xs),
        length-to_le 2 (length s),
      ))
      (ap (λ x. to_le 4 size ++ (x ++ contents 94 all))
          (heads-append 94 xs (text_field scramble s ∷ ys))
        ∙ regroup (to_le 4 size) (heads 94 xs)
            (to_le 2 (94 + total_advance xs) ++ to_le 2 (length s))
            (heads (94 + total_advance xs + length (ucs2_bytes s)) ys) (contents 94 all)),
  slice_at (to_le 4 size ++ heads 94 all ++ contents 94 xs) (scramble (ucs2_bytes s))
      (contents (94 + total_advance xs + length (ucs2_bytes s)) ys) buf (94 + total_advance xs)
      (length (scramble (ucs2_bytes s)))
      (omega (
        arith,
        length-append (to_le 4 size ++ heads 94 all) (contents 94 xs),
        length-append (to_le 4 size) (heads 94 all),
        length-to_le 4 size,
        e,
        length-contents 94 xs h,
      ))
      refl
      (ap (λ x. to_le 4 size ++ (heads 94 all ++ x))
          (contents-append 94 xs (text_field scramble s ∷ ys))
        ∙ sym (append_assoc (to_le 4 size) (heads 94 all) _)
        ∙ sym (append_assoc (to_le 4 size ++ heads 94 all) (contents 94 xs) _)),
)
  where
    all : List Field
    all = xs ++ (text_field scramble s ∷ ys)

    buf : Buffer
    buf = to_le 4 size ++ (heads 94 all ++ contents 94 all)

    regroup : (t a b c d : Buffer) → t ++ ((a ++ (b ++ c)) ++ d) ≡ (t ++ a) ++ (b ++ (c ++ d))
    regroup t a b c d =
        ap (λ x. t ++ x) (append_assoc a (b ++ c) d ∙ ap (λ x. a ++ x) (append_assoc b c d))
        ∙ sym (append_assoc t a (b ++ (c ++ d)))

texts-IsBalanced : (p : Login7Payload) → IsBalanced (take 20 (fields p))
unfolding scramble_password
texts-IsBalanced p = (
  (λ o. refl),
  (
    (λ o. refl),
    (
      (λ o. refl),
      (
        (λ o. refl),
        (
          (λ o. refl),
          (
            (λ o. refl),
            (
              (λ o. refl),
              (
                (λ o. refl),
                (
                  (λ o. refl),
                  (
                    (λ o. refl),
                    (
                      (λ o. refl),
                      (
                        (λ o. refl),
                        (
                          (λ o. refl),
                          (
                            (λ o. length-map (ucs2_bytes (text_of p.password)) scramble_byte),
                            (
                              (λ o. refl),
                              (
                                (λ o. refl),
                                (
                                  (λ o. omega (
                                    arith,
                                    length-append (to_le 4 (o + 4)) (build_feature_ext p),
                                    length-to_le 4 (o + 4),
                                  )),
                                  ((λ o. refl), ((λ o. refl), ((λ o. refl), tt))),
                                ),
                              ),
                            ),
                          ),
                        ),
                      ),
                    ),
                  ),
                ),
              ),
            ),
          ),
        ),
      ),
    ),
  ),
)

-- A host name that is there; the length of a missing one is written wrong.
abbrev pub HostPoints : Option JsString → Buffer → Type 0
HostPoints none buf = Unit {0}
HostPoints (some []) buf = Unit {0}
HostPoints (some (c ∷ cs)) buf = Points buf 36 (c ∷ cs) (ucs2_bytes (c ∷ cs))

-- The texts from the host name to the database, the password scrambled.
abbrev pub PointsToAll : Login7Payload → Buffer → Type 0
PointsToAll p buf =
    HostPoints p.hostname buf
    × Points buf 40 (text_of p.user_name) (ucs2_bytes (text_of p.user_name))
    × Points buf 44 (text_of p.password) (scramble_password (ucs2_bytes (text_of p.password)))
    × Points buf 48 (text_of p.app_name) (ucs2_bytes (text_of p.app_name))
    × Points buf 52 (text_of p.server_name) (ucs2_bytes (text_of p.server_name))
    × Points buf 60 (text_of p.library_name) (ucs2_bytes (text_of p.library_name))
    × Points buf 64 (text_of p.language) (ucs2_bytes (text_of p.language))
    × Points buf 68 (text_of p.database) (ucs2_bytes (text_of p.database))

layout-HostPoints :
    (p : Login7Payload) (o : Option JsString)
    → HostPoints o (login_layout (record p { hostname = o }))
unfolding to_le
layout-HostPoints p none = tt
layout-HostPoints p (some []) = tt
layout-HostPoints p (some (c ∷ cs)) =
    found_at (94 + length (contents 94 (fields q))) (take 11 (fields q)) (drop 12 (fields q))
      (λ bytes. bytes) (c ∷ cs) (take-IsBalanced 11 (take 20 (fields q)) (texts-IsBalanced q))
      (length-heads q)
  where
    q : Login7Payload
    q = record p { hostname = some (c ∷ cs) }

layout-PointsToAll : (p : Login7Payload) → PointsToAll p (login_layout p)
unfolding to_le
layout-PointsToAll p = (
  layout-HostPoints p p.hostname,
  found_at (94 + length (contents 94 (fields p))) (take 12 (fields p)) (drop 13 (fields p))
      (λ bytes. bytes) (text_of p.user_name)
      (take-IsBalanced 12 (take 20 (fields p)) (texts-IsBalanced p)) (length-heads p),
  found_at (94 + length (contents 94 (fields p))) (take 13 (fields p)) (drop 14 (fields p))
      scramble_password (text_of p.password)
      (take-IsBalanced 13 (take 20 (fields p)) (texts-IsBalanced p)) (length-heads p),
  found_at (94 + length (contents 94 (fields p))) (take 14 (fields p)) (drop 15 (fields p))
      (λ bytes. bytes) (text_of p.app_name)
      (take-IsBalanced 14 (take 20 (fields p)) (texts-IsBalanced p)) (length-heads p),
  found_at (94 + length (contents 94 (fields p))) (take 15 (fields p)) (drop 16 (fields p))
      (λ bytes. bytes) (text_of p.server_name)
      (take-IsBalanced 15 (take 20 (fields p)) (texts-IsBalanced p)) (length-heads p),
  found_at (94 + length (contents 94 (fields p))) (take 17 (fields p)) (drop 18 (fields p))
      (λ bytes. bytes) (text_of p.library_name)
      (take-IsBalanced 17 (take 20 (fields p)) (texts-IsBalanced p)) (length-heads p),
  found_at (94 + length (contents 94 (fields p))) (take 18 (fields p)) (drop 19 (fields p))
      (λ bytes. bytes) (text_of p.language)
      (take-IsBalanced 18 (take 20 (fields p)) (texts-IsBalanced p)) (length-heads p),
  found_at (94 + length (contents 94 (fields p))) (take 19 (fields p)) (drop 20 (fields p))
      (λ bytes. bytes) (text_of p.database)
      (take-IsBalanced 19 (take 20 (fields p)) (texts-IsBalanced p)) (length-heads p),
)

-- Where the numbers of a login fit their widths, its offsets two bytes and its length four, toBuffer makes
-- a buffer, and the two numbers that it has for a text at a fixed place in its head (36 for the host name, where there is one that is not empty, 40 for the user name,
-- then 44 for the password, 48 for the application, 52 for the server, 60 for the library, 64 for the
-- language, 68 for the database) are an offset and the length of the text: from that offset on the buffer
-- has the bytes of the text, those of the password scrambled.
pub to_buffer-PointsToAll :
    (p : Login7Payload)
    → IsInRange p
    → 94 + total_advance (fields p) < 65536
    → 94 + length (contents 94 (fields p)) < 256 ^ 4
    → (buf : Buffer) × (to_buffer p ≡ some buf) × PointsToAll p buf
to_buffer-PointsToAll p h o k = (login_layout p, to_buffer_lem p h o k, layout-PointsToAll p)
