-- ===== src/Prelude/Bits.antt =====
-- The bitwise operations on parts of words: masks, and `|` of parts that do not overlap.
use native.Mathlib.Nat.{pow-suc}
use Prim.Native.Nat.{
  ℕ, zero, suc, ◌+◌, ◌*◌, ◌/◌, ◌%◌, ◌^◌, ◌≤◌, ◌<◌, min, max, bit_and, bit_or, digits,
  bit_and-bitwise, bit_or-bitwise,
}
use mathlib.Core.Path.{◌≡◌, refl, ap, ◌∙◌, sym}
use mathlib.Core.Logic.{inl, inr}
use native.Mathlib.Omega.{arith}
use tedious.Prelude.Tests.{le_or_lt}

-- A native operation goes through the binary digits of its first operand, with that operand as its fuel.
module _ (rest : ℕ → ℕ) (digit : ℕ → ℕ → ℕ) where
  one_more : (n a b : ℕ) → a ≤ n → digits rest digit (suc n) a b ≡ digits rest digit n a b
  one_more zero zero b h = refl
  one_more (suc n) zero b h = refl
  one_more zero (suc a) b h = absurd (omega arith)
  one_more (suc n) (suc a) b h =
      ap (λ high. high * 2 + digit (suc a % 2) (b % 2))
        (one_more n (suc a / 2) (b / 2) (omega arith))

  same_fuel : (n m a b : ℕ) → n ≡ m → digits rest digit n a b ≡ digits rest digit m a b
  same_fuel n m a b e = ap (λ t. digits rest digit t a b) e

  any_more : (n m a b : ℕ) → a ≤ m → m ≤ n → digits rest digit n a b ≡ digits rest digit m a b
  any_more zero m a b h k = same_fuel zero m a b (omega arith)
  any_more (suc n) m a b h k = elim (le_or_lt (suc n) m) [
    | inl all ↦ same_fuel (suc n) m a b (omega arith)
    | inr less ↦ one_more n a b (omega arith) ∙ any_more n m a b h (omega arith)
  ]

  -- The law of the lowest digit, of a number that is not 0.
  last_digit :
      (a b : ℕ)
      → digits rest digit (suc a) (suc a) b
        ≡ digits rest digit (suc a / 2) (suc a / 2) (b / 2) * 2 + digit (suc a % 2) (b % 2)
  last_digit a b =
      ap (λ high. high * 2 + digit (suc a % 2) (b % 2))
        (any_more a (suc a / 2) (suc a / 2) (b / 2) (omega arith) (omega arith))

pub bit_or_step : (a b : ℕ) → bit_or a b ≡ bit_or (a / 2) (b / 2) * 2 + max (a % 2) (b % 2)
bit_or_step zero b = omega (arith, bit_or-bitwise 0 b, bit_or-bitwise 0 (b / 2))
bit_or_step (suc a) b =
    bit_or-bitwise (suc a) b
    ∙ last_digit (λ b. b) max a b
    ∙ ap (λ high. high * 2 + max (suc a % 2) (b % 2)) (sym (bit_or-bitwise (suc a / 2) (b / 2)))

pub bit_and_step : (a b : ℕ) → bit_and a b ≡ bit_and (a / 2) (b / 2) * 2 + min (a % 2) (b % 2)
bit_and_step zero b = omega (arith, bit_and-bitwise 0 b, bit_and-bitwise 0 (b / 2))
bit_and_step (suc a) b =
    bit_and-bitwise (suc a) b
    ∙ last_digit (λ b. 0) min a b
    ∙ ap (λ high. high * 2 + min (suc a % 2) (b % 2)) (sym (bit_and-bitwise (suc a / 2) (b / 2)))

-- Nothing to add, and nothing to keep.
or_nothing : (bound a : ℕ) → a ≤ bound → bit_or a 0 ≡ a
or_nothing zero a h = let e : a ≡ 0 = omega arith in rw e (bit_or-bitwise 0 0)
or_nothing (suc bound) a h = elim (le_or_lt a bound) [
  | inl small ↦ or_nothing bound a small
  | inr full ↦ omega (arith, bit_or_step a 0, or_nothing bound (a / 2) (omega arith))
]

and_nothing : (bound a : ℕ) → a ≤ bound → bit_and a 0 ≡ 0
and_nothing zero a h = let e : a ≡ 0 = omega arith in rw e (bit_and-bitwise 0 0)
and_nothing (suc bound) a h = elim (le_or_lt a bound) [
  | inl small ↦ and_nothing bound a small
  | inr full ↦ omega (arith, bit_and_step a 0, and_nothing bound (a / 2) (omega arith))
]

-- The digit of the weight `2 ^ k`.
unfoldable pub binary_digit : ℕ → ℕ → ℕ
binary_digit zero n = n % 2
binary_digit (suc k) n = binary_digit k (n / 2)

pub binary_digit_bound : (k n : ℕ) → binary_digit k n < 2
unfolding binary_digit
binary_digit_bound zero n = omega arith
binary_digit_bound (suc k) n = binary_digit_bound k (n / 2)

pub bit_and_power : (k n : ℕ) → bit_and n (2 ^ k) ≡ binary_digit k n * 2 ^ k
unfolding binary_digit
bit_and_power zero n = omega (arith, bit_and_step n 1, and_nothing (n / 2) (n / 2) (omega arith))
bit_and_power (suc k) n =
    bit_and_step n (2 ^ suc k)
    ∙ ap (λ t. bit_and (n / 2) t * 2 + min (n % 2) (2 ^ suc k % 2)) half
    ∙ omega
        (arith, bit_and_power k (n / 2), even, ap (λ (t : ℕ). binary_digit k (n / 2) * t) double)
  where
    double : 2 ^ suc k ≡ 2 * 2 ^ k
    double = omega (arith, pow-suc 2 k)

    half : 2 ^ suc k / 2 ≡ 2 ^ k
    half = omega (arith, double)

    even : 2 ^ suc k % 2 ≡ 0
    even = omega (arith, double)

-- A part above bit `k` and a part below it make their sum.
pub bit_or_disjoint : (k a b : ℕ) → b < 2 ^ k → bit_or (a * 2 ^ k) b ≡ a * 2 ^ k + b
bit_or_disjoint zero a b h =
    let e : b ≡ 0 = omega arith in rw e (or_nothing (a * 1) (a * 1) (omega arith) ∙ omega arith)
bit_or_disjoint (suc k) a b h =
    ap (λ t. bit_or t b) double
    ∙ bit_or_step (2 * (a * 2 ^ k)) b
    ∙ ap (λ t. bit_or t (b / 2) * 2 + max (2 * (a * 2 ^ k) % 2) (b % 2)) half
    ∙ omega (arith, bit_or_disjoint k a (b / 2) (omega (arith, pow-suc 2 k)), double)
  where
    double : a * 2 ^ suc k ≡ 2 * (a * 2 ^ k)
    double = omega (arith, ap (λ (t : ℕ). a * t) (pow-suc 2 k))

    half : 2 * (a * 2 ^ k) / 2 ≡ a * 2 ^ k
    half = omega arith

-- A mask of ones is a remainder: one bit more at a time.
mask_step :
    (m w : ℕ)
    → ((y : ℕ) → bit_and y m ≡ y % w)
    → (x : ℕ) → bit_and x (2 * m + 1) ≡ x / 2 % w * 2 + x % 2
mask_step m w h x =
    bit_and_step x (2 * m + 1)
    ∙ ap (λ t. bit_and (x / 2) t * 2 + min (x % 2) ((2 * m + 1) % 2)) half
    ∙ omega (arith, h (x / 2))
  where
    half : (2 * m + 1) / 2 ≡ m
    half = omega arith

mask1 : (x : ℕ) → bit_and x 1 ≡ x % 2
mask1 x = bit_and_step x 1 ∙ omega (arith, and_nothing (x / 2) (x / 2) (omega arith))

pub low_four : (x : ℕ) → bit_and x 0x0f ≡ x % 16
low_four x = mask_step 7 8 m3 x ∙ omega arith
  where
    m2 : (y : ℕ) → bit_and y 3 ≡ y % 4
    m2 y = mask_step 1 2 mask1 y ∙ omega arith

    m3 : (y : ℕ) → bit_and y 7 ≡ y % 8
    m3 y = mask_step 3 4 m2 y ∙ omega arith

pub low_byte : (x : ℕ) → bit_and x 0xff ≡ x % 256
low_byte x = mask_step 127 128 m7 x ∙ omega arith
  where
    m5 : (y : ℕ) → bit_and y 31 ≡ y % 32
    m5 y = mask_step 15 16 low_four y ∙ omega arith

    m6 : (y : ℕ) → bit_and y 63 ≡ y % 64
    m6 y = mask_step 31 32 m5 y ∙ omega arith

    m7 : (y : ℕ) → bit_and y 127 ≡ y % 128
    m7 y = mask_step 63 64 m6 y ∙ omega arith

-- A mask whose last bit is 0 leaves the last bit out.
mask_shift : (m x : ℕ) → bit_and x (2 * m) ≡ bit_and (x / 2) m * 2
mask_shift m x =
    bit_and_step x (2 * m)
    ∙ ap (λ t. bit_and (x / 2) t * 2 + min (x % 2) (2 * m % 2)) half
    ∙ omega arith
  where
    half : 2 * m / 2 ≡ m
    half = omega arith

pub low_nibble : (b : ℕ) → b < 256 → bit_and b 0x0f ≡ b % 16
low_nibble b h = low_four b

pub high_nibble : (b : ℕ) → b < 256 → bit_and b 0xf0 ≡ b / 16 * 16
high_nibble b h = omega (
  arith,
  mask_shift 0x78 b,
  mask_shift 0x3c (b / 2),
  mask_shift 0x1e (b / 2 / 2),
  mask_shift 0x0f (b / 2 / 2 / 2),
  low_four (b / 2 / 2 / 2 / 2),
)
