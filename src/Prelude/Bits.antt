-- ===== src/Prelude/Bits.antt =====
-- The bits of a number, and what `&` and `|` do to each of them.
use Prim.Native.Nat.{
  ℕ, zero, suc, ◌+◌, ◌-◌, ◌*◌, ◌/◌, ◌%◌, ◌^◌, ◌≤◌, ◌<◌, min, max, bit_and, bit_or, digits,
  bit_and-bitwise, bit_or-bitwise,
}
use mathlib.Core.Path.{◌≡◌, refl, sym, ap, ◌∙◌}
use mathlib.Core.Logic.{◌⊎◌, inl, inr}
use native.Mathlib.Omega.{arith}

-- Bit `k` of a number, 0 or 1.
abbrev pub bit_at : ℕ → ℕ → ℕ
bit_at zero n = n % 2
bit_at (suc k) n = bit_at k (n / 2)

-- The recursion on binary digits that both operations stand for, by what is left when the first
-- number has run out, which agrees with the operation on a digit 0.
module _ (rest : ℕ → ℕ) (op : ℕ → ℕ → ℕ)
    (base : (y : ℕ) → rest y ≡ rest (y / 2) * 2 + op 0 (y % 2)) where
  -- A digit more to go changes nothing, where there are enough.
  one_more : (n x y : ℕ) → x ≤ n → digits rest op (suc n) x y ≡ digits rest op n x y
  one_more n zero y h = elim n as (λ k. digits rest op (suc k) 0 y ≡ digits rest op k 0 y) [
    | zero ↦ refl
    | suc m ↦ refl
  ]
  one_more zero (suc x) y h = absurd (omega arith)
  one_more (suc n) (suc x) y h = rw (one_more n (suc x / 2) (y / 2) (omega arith)) refl

  spare : (extra n x y : ℕ) → x ≤ n → digits rest op (extra + n) x y ≡ digits rest op n x y
  spare zero n x y h = let e : 0 + n ≡ n = omega arith in rw e refl
  spare (suc extra) n x y h =
      let e : suc extra + n ≡ suc (extra + n) = omega arith in
      rw (e, one_more (extra + n) x y (omega arith)) (spare extra n x y h)

  lowest_digit :
      (x y : ℕ)
      → digits rest op x x y ≡ digits rest op (x / 2) (x / 2) (y / 2) * 2 + op (x % 2) (y % 2)
  lowest_digit zero y = base y
  lowest_digit (suc x) y =
      let e : x - suc x / 2 + suc x / 2 ≡ x = omega arith in
      let spared = spare (x - suc x / 2) (suc x / 2) (suc x / 2) (y / 2) (omega arith) in
      ap (λ n. digits rest op n (suc x / 2) (y / 2) * 2 + op (suc x % 2) (y % 2)) (sym e)
      ∙ ap (λ d. d * 2 + op (suc x % 2) (y % 2)) spared

pub bit_and_digits : (a b : ℕ) → bit_and a b ≡ bit_and (a / 2) (b / 2) * 2 + min (a % 2) (b % 2)
bit_and_digits a b = omega (
  arith,
  lowest_digit (λ y. 0) min (λ y. omega arith) a b,
  bit_and-bitwise a b,
  bit_and-bitwise (a / 2) (b / 2),
)

pub bit_or_digits : (a b : ℕ) → bit_or a b ≡ bit_or (a / 2) (b / 2) * 2 + max (a % 2) (b % 2)
bit_or_digits a b = omega (
  arith,
  lowest_digit (λ y. y) max (λ y. omega arith) a b,
  bit_or-bitwise a b,
  bit_or-bitwise (a / 2) (b / 2),
)

pub bit_at-bit_and : (k a b : ℕ) → bit_at k (bit_and a b) ≡ min (bit_at k a) (bit_at k b)
bit_at-bit_and zero a b = omega (arith, bit_and_digits a b)
bit_at-bit_and (suc k) a b =
    let half : bit_and a b / 2 ≡ bit_and (a / 2) (b / 2) = omega (arith, bit_and_digits a b) in
    rw half (bit_at-bit_and k (a / 2) (b / 2))

pub bit_at-bit_or : (k a b : ℕ) → bit_at k (bit_or a b) ≡ max (bit_at k a) (bit_at k b)
bit_at-bit_or zero a b = omega (arith, bit_or_digits a b)
bit_at-bit_or (suc k) a b =
    let half : bit_or a b / 2 ≡ bit_or (a / 2) (b / 2) = omega (arith, bit_or_digits a b) in
    rw half (bit_at-bit_or k (a / 2) (b / 2))

pub bit_at-le : (k n : ℕ) → bit_at k n ≤ 1
bit_at-le zero n = omega arith
bit_at-le (suc k) n = bit_at-le k (n / 2)

bit_and_zero : (n b : ℕ) → b ≤ n → bit_and b 0 ≡ 0
bit_and_zero zero zero h = refl
bit_and_zero zero (suc b) h = absurd (omega arith)
bit_and_zero (suc n) b h = omega (arith, bit_and_digits b 0, bit_and_zero n (b / 2) (omega arith))

pow_positive : (k : ℕ) → 0 < 2 ^ k
pow_positive zero = omega arith
pow_positive (suc k) = omega (arith, pow_positive k)

pow_double : (k b : ℕ) → b * 2 ^ suc k ≡ b * 2 ^ k * 2
pow_double k b = grind arith

-- Masking the low bits, and joining fields that do not overlap.
pub bit_and_fields : (k a b : ℕ) → a < 2 ^ k → bit_and (a + b * 2 ^ k) (2 ^ k - 1) ≡ a
bit_and_fields zero a b h = omega (arith, bit_and_zero (a + b * 1) (a + b * 1) (omega arith))
bit_and_fields (suc k) a b h =
    let double = pow_double k b in
    let low : (a + b * 2 ^ suc k) / 2 ≡ a / 2 + b * 2 ^ k = omega arith in
    let mask : (2 ^ suc k - 1) / 2 ≡ 2 ^ k - 1 = omega (arith, pow_positive k) in
    let rest : bit_and ((a + b * 2 ^ suc k) / 2) ((2 ^ suc k - 1) / 2) ≡ a / 2 =
      rw (low, mask) (bit_and_fields k (a / 2) b (omega arith)) in
    omega (arith, pow_positive k, bit_and_digits (a + b * 2 ^ suc k) (2 ^ suc k - 1))

Zero-cases : (n : ℕ) → (n ≡ 0) ⊎ (0 < n)
Zero-cases zero = inl refl
Zero-cases (suc n) = inr (omega arith)

bit_or_zero : (b : ℕ) → bit_or 0 b ≡ b
bit_or_zero b = bit_or-bitwise 0 b

bit_or_zero_below : (n a : ℕ) → a ≤ n → bit_or a 0 ≡ a
bit_or_zero_below zero a h = let e : a ≡ 0 = omega arith in rw e refl
bit_or_zero_below (suc n) a h = elim (Zero-cases a) [
  | inl e ↦ rw e refl
  | inr positive ↦ omega (arith, bit_or_digits a 0, bit_or_zero_below n (a / 2) (omega arith))
]

pub bit_or_zero_right : (a : ℕ) → bit_or a 0 ≡ a
bit_or_zero_right a = bit_or_zero_below a a (omega arith)

pub bit_or_fields : (k a b : ℕ) → a < 2 ^ k → bit_or a (b * 2 ^ k) ≡ a + b * 2 ^ k
bit_or_fields zero zero b h = omega (arith, bit_or_zero (b * 1))
bit_or_fields zero (suc a) b h = absurd (omega arith)
bit_or_fields (suc k) a b h =
    let double = pow_double k b in
    let half : (b * 2 ^ suc k) / 2 ≡ b * 2 ^ k = omega arith in
    let rest : bit_or (a / 2) ((b * 2 ^ suc k) / 2) ≡ a / 2 + b * 2 ^ k =
      rw half (bit_or_fields k (a / 2) b (omega arith)) in
    omega (arith, bit_or_digits a (b * 2 ^ suc k))
