-- ===== src/Hex.antt =====
-- Hexadecimal rendering, as the format strings of the provider ask for it (`{:08x}`, `{:x}`, `{:X}`).
pub mod Reading
use kee_pass_key_win.Prelude.{
  ℕ, zero, suc, ◌+◌, ◌-◌, ◌/◌, ◌%◌, [], ◌∷◌, ◌++◌, Text, ltb, ◌==◌, if◌then◌else◌,
}

-- A digit, with the letters from `a` on given as 97 or 65.
unfoldable pub digit : ℕ → ℕ → ℕ
digit a d = if ltb d 10 then 48 + d else a + (d - 10)

-- The low `k` digits of `n`, with leading zeros: `{:0kx}` of an `n` below 16 ^ k.
unfoldable pub hex_pad : ℕ → ℕ → ℕ → Text
unfolding digit
hex_pad a zero n = []
hex_pad a (suc k) n = hex_pad a k (n / 16) ++ digit a (n % 16) ∷ []

drop_zeros : Text → Text
drop_zeros [] = []
drop_zeros (c ∷ []) = c ∷ []
drop_zeros (c ∷ d ∷ rest) = let r = drop_zeros (d ∷ rest) in if c == 48 then r else c ∷ d ∷ rest

-- `{:x}` of a `u32`
unfoldable pub hex_u32 : ℕ → Text
unfolding drop_zeros hex_pad
hex_u32 n = drop_zeros (hex_pad 97 8 n)
