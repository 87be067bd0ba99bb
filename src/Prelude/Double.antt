-- ===== src/Prelude/Double.antt =====
-- A non-negative integer as a double: rounded to 53 significant bits, halves to even.
use tedious.Prelude.{
  ℕ, zero, suc, ◌+◌, ◌*◌, ◌/◌, ◌%◌, ◌^◌, ◌<◌, ◌≡◌, refl, arith, ltb, lt→ltb, ◌==◌, if◌then◌else◌,
}

-- How many bits the number has above 53, up to the fuel.
unfoldable pub excess_bits : ℕ → ℕ → ℕ
excess_bits zero n = 0
excess_bits (suc fuel) n =
    let more = suc (excess_bits fuel (n / 2)) in if ltb n (2 ^ 53) then 0 else more

unfoldable pub round_to : ℕ → ℕ → ℕ
round_to unit n =
    if ltb (2 * (n % unit)) unit
    then n / unit * unit
    else if ltb unit (2 * (n % unit))
    then (n / unit + 1) * unit
    else if (n / unit) % 2 == 0
    then n / unit * unit
    else (n / unit + 1) * unit

-- The numbers here stay below 2 ^ 129, so 128 steps bring them below 2 ^ 53.
unfoldable pub to_double : ℕ → ℕ
unfolding excess_bits round_to
to_double n = round_to (2 ^ excess_bits 128 n) n

round_to-one : (n : ℕ) → round_to 1 n ≡ n
unfolding round_to
round_to-one n = ground arith

excess_bits-exact : (fuel n : ℕ) → n < 2 ^ 53 → excess_bits fuel n ≡ 0
unfolding excess_bits
excess_bits-exact zero n h = refl
excess_bits-exact (suc fuel) n h = rw (lt→ltb _ _ h)

-- A safe integer is kept.
pub to_double_exact : (n : ℕ) → n < 2 ^ 53 → to_double n ≡ n
to_double_exact n h = unfold to_double in rw (excess_bits-exact 128 n h) (round_to-one n)
