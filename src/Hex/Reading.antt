-- ===== src/Hex/Reading.antt =====
-- Hexadecimal digits are read back as the number that they render.
use native.Mathlib.Omega.{pow_step}
use kee_pass_key_win.Prelude.{
  ℕ, zero, suc, ◌+◌, ◌-◌, ◌*◌, ◌/◌, ◌%◌, ◌^◌, ◌≤◌, ◌<◌, [], ◌∷◌, ◌++◌, Text, ◌≡◌, ◌∙◌, refl, ap,
  sym, arith, length, length-append, ltb, if◌then◌else◌,
}
use kee_pass_key_win.Hex.{digit, hex_pad}

abbrev value_of : ℕ → ℕ → ℕ
value_of a c = if ltb c 58 then c - 48 else c - a + 10

-- The number that digits stand for, after a number that was read before them.
abbrev read_hex : ℕ → ℕ → Text → ℕ
read_hex a n [] = n
read_hex a n (c ∷ cs) = read_hex a (n * 16 + value_of a c) cs

read_hex-append :
    (a n c : ℕ) (s : Text) → read_hex a n (s ++ c ∷ []) ≡ read_hex a n s * 16 + value_of a c
read_hex-append a n c [] = refl
read_hex-append a n c (d ∷ s) = read_hex-append a (n * 16 + value_of a d) c s

value_of-digit : (a d : ℕ) → 58 ≤ a → d < 16 → value_of a (digit a d) ≡ d
unfolding digit
value_of-digit a d h k = ground arith

read_hex-hex_pad : (a k n : ℕ) → 58 ≤ a → n < 16 ^ k → read_hex a 0 (hex_pad a k n) ≡ n
unfolding hex_pad
read_hex-hex_pad a zero n h b = omega arith
read_hex-hex_pad a (suc k) n h b =
    let power : 16 ^ suc k ≡ 16 * 16 ^ k = pow_step 16 k in
    read_hex-append a 0 (digit a (n % 16)) (hex_pad a k (n / 16))
    ∙ omega (
      arith,
      read_hex-hex_pad a k (n / 16) h (omega (arith, power, b)),
      value_of-digit a (n % 16) h (omega arith),
    )

pub length-hex_pad : (a k n : ℕ) → length (hex_pad a k n) ≡ k
unfolding hex_pad
length-hex_pad a zero n = refl
length-hex_pad a (suc k) n = omega (
  arith,
  length-append (hex_pad a k (n / 16)) (digit a (n % 16) ∷ []),
  length-hex_pad a k (n / 16),
)

-- Numbers with the same digits are the same.
pub hex_pad-injective :
    (a k n m : ℕ) → 58 ≤ a → n < 16 ^ k → m < 16 ^ k → hex_pad a k n ≡ hex_pad a k m → n ≡ m
hex_pad-injective a k n m h b c e =
    sym (read_hex-hex_pad a k n h b) ∙ ap (read_hex a 0) e ∙ read_hex-hex_pad a k m h c
