-- ===== src/Prelude/Bits.antt =====
-- Numbers as digits: a quotient that is read off, and the bitwise or of numbers that have no binary digit in
-- common, which is their sum.
use Prim.Native.Nat.{ℕ, zero, suc, ◌+◌, ◌*◌, ◌/◌, ◌%◌, ◌^◌, ◌≤◌, ◌<◌, max}
use Prim.Native.Nat.{bit_or, bit_or-bitwise, digits}
use mathlib.Core.Path.{◌≡◌, ◌∙◌, refl, ap}
use native.Mathlib.Nat.{add-mul-div_right, div-eq_of_lt}
use native.Mathlib.Omega.{arith, pow_step}

abbrev or_digits : ℕ → ℕ → ℕ → ℕ
or_digits = digits (λ b. b) max

-- Any count of digits that is not below the first number will do.
or_digits-enough : (n m a b : ℕ) → a ≤ n → a ≤ m → or_digits n a b ≡ or_digits m a b
or_digits-enough zero zero a b h k = refl
or_digits-enough (suc n) (suc m) (suc a) b h k =
    let rest = or_digits-enough n m (suc a / 2) (b / 2) (omega arith) (omega arith) in
    omega (arith, rest)
or_digits-enough (suc n) (suc m) zero b h k = refl
or_digits-enough zero (suc m) zero b h k = refl
or_digits-enough (suc n) zero zero b h k = refl
or_digits-enough zero (suc m) (suc a) b h k = absurd (omega arith)
or_digits-enough (suc n) zero (suc a) b h k = absurd (omega arith)

-- The lowest digit and the others.
bit_or-halves : (a b : ℕ) → bit_or a b ≡ bit_or (a / 2) (b / 2) * 2 + max (a % 2) (b % 2)
bit_or-halves zero b = omega (arith, bit_or-bitwise zero b, bit_or-bitwise zero (b / 2))
bit_or-halves (suc a) b =
    let halves = or_digits-enough a (suc a / 2) (suc a / 2) (b / 2) (omega arith) (omega arith) in
    omega (arith, bit_or-bitwise (suc a) b, bit_or-bitwise (suc a / 2) (b / 2), halves)

bit_or-zero : (n a : ℕ) → a ≤ n → bit_or a 0 ≡ a
bit_or-zero n zero h = refl
bit_or-zero zero (suc a) h = absurd (omega arith)
bit_or-zero (suc n) (suc a) h =
    omega (arith, bit_or-halves (suc a) 0, bit_or-zero n (suc a / 2) (omega arith))

-- A number moved past the digits of another.
pub bit_or-disjoint : (k q r : ℕ) → r < 2 ^ k → bit_or (q * 2 ^ k) r ≡ q * 2 ^ k + r
bit_or-disjoint zero q r h = ground (arith, bit_or-zero (q * 1) (q * 1))
bit_or-disjoint (suc k) q r h =
    let power : 2 ^ suc k ≡ 2 * 2 ^ k = pow_step 2 k in
    let moved : q * 2 ^ suc k ≡ 2 * (q * 2 ^ k) = omega (arith, ap (λ (p : ℕ). q * p) power) in
    let low = bit_or-disjoint k q (r / 2) (omega arith) in
    ground (arith, bit_or-halves (q * 2 ^ suc k) r, moved, low)

-- The upper digits of a number.
pub quotient : (q r c : ℕ) → r < c → (q * c + r) / c ≡ q
quotient q r c h =
    let front : (r + q * c) / c ≡ r / c + q = add-mul-div_right r q (omega (arith, h)) in
    let none_left : r / c ≡ 0 = div-eq_of_lt h in
    let swapped : q * c + r ≡ r + q * c = omega arith in
    ap (λ (a : ℕ). a / c) swapped ∙ omega (arith, front, none_left)
