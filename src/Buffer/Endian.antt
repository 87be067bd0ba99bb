-- ===== src/Buffer/Endian.antt =====
-- Reading back what was written, byte order by byte order.
use mathlib.Core.List.{reverse-reverse}
use native.Mathlib.Nat.{pow-suc}
use tedious.Prelude.{ℕ, zero, suc, ◌*◌, ◌/◌, ◌^◌, ◌<◌, ◌≡◌, refl, ap, ◌∙◌}
use tedious.Prelude.{[], ◌∷◌, arith, length, All, length-reverse}
use tedious.Buffer.{Buffer, JsString, le, to_le, be, to_be, ucs2, ucs2_bytes}

-- Each element is a byte.
abbrev pub IsByte : ℕ → Type 0
IsByte b = b < 256

pub length-to_le : (w v : ℕ) → length (to_le w v) ≡ w
unfolding to_le
length-to_le zero v = refl
length-to_le (suc w) v = ap suc (length-to_le w (v / 256))

pub to_le-IsByte : (w v : ℕ) → All IsByte (to_le w v)
unfolding to_le
to_le-IsByte zero v = tt
to_le-IsByte (suc w) v = (omega arith, to_le-IsByte w (v / 256))

pub le-to_le : (w v : ℕ) → v < 256 ^ w → le (to_le w v) ≡ v
unfolding le to_le
le-to_le zero v h = omega arith
le-to_le (suc w) v h = omega (arith, le-to_le w (v / 256) (omega (arith, pow-suc 256 w)))

pub be-to_be : (w v : ℕ) → v < 256 ^ w → be (to_be w v) ≡ v
unfolding be to_be
be-to_be w v h = rw reverse-reverse (le-to_le w v h)

pub length-to_be : (w v : ℕ) → length (to_be w v) ≡ w
unfolding to_be
length-to_be w v = length-reverse (to_le w v) ∙ length-to_le w v

pub le-lt : (bs : Buffer) → All IsByte bs → le bs < 256 ^ length bs
unfolding le
le-lt [] h = omega arith
le-lt (b ∷ bs) (hb, hbs) = omega (arith, le-lt bs hbs, pow-suc 256 (length bs))

pub ucs2-ucs2_bytes : (s : JsString) → ucs2 (ucs2_bytes s) ≡ s
unfolding ucs2 ucs2_bytes
ucs2-ucs2_bytes [] = refl
ucs2-ucs2_bytes (c ∷ cs) = rw (ucs2-ucs2_bytes cs) (ap (λ (t : ℕ). t ∷ cs) (omega arith))

pub length-ucs2_bytes : (s : JsString) → length (ucs2_bytes s) ≡ length s * 2
unfolding ucs2_bytes
length-ucs2_bytes [] = refl
length-ucs2_bytes (c ∷ cs) = omega (arith, length-ucs2_bytes cs)
