-- ===== src/Utf16.antt =====
-- UTF-16 as Rust's `str::encode_utf16` and `String::from_utf16` have it, and the two functions of
-- the provider that make null-terminated buffers of it: `to_utf16_null` of com/exe_server.rs and
-- `encode_utf16_nul` of com/server.rs, with `strip_nul`.
pub mod RoundTrip
use kee_pass_key_win.Prelude.{
  ℕ, ◌+◌, ◌-◌, ◌*◌, ◌/◌, ◌%◌, Bool, ◌&&◌, ◌||◌, true, false, Option, none, some, List, [], ◌∷◌,
  ◌++◌, Text, leb, ltb, ◌==◌, if◌then◌else◌,
}

-- The one or two code units of a scalar value.
unfoldable pub encode_char : ℕ → List ℕ
encode_char c =
    if ltb c 0x10000
    then c ∷ []
    else (0xd800 + (c - 0x10000) / 0x400) ∷ (0xdc00 + (c - 0x10000) % 0x400) ∷ []

unfoldable pub encode_utf16 : Text → List ℕ
unfolding encode_char
encode_utf16 [] = []
encode_utf16 (c ∷ cs) = encode_char c ++ encode_utf16 cs

abbrev pub is_high : ℕ → Bool
is_high u = leb 0xd800 u && ltb u 0xdc00

abbrev pub is_low : ℕ → Bool
is_low u = leb 0xdc00 u && ltb u 0xe000

abbrev cons? : ℕ → Option Text → Option Text
cons? c none = none
cons? c (some cs) = some (c ∷ cs)

-- An unpaired surrogate makes the whole buffer invalid.
unfoldable pub from_utf16 : List ℕ → Option Text
from_utf16 [] = some []
from_utf16 (u ∷ []) = if is_high u then none else if is_low u then none else some (u ∷ [])
from_utf16 (u ∷ v ∷ rest) = elim (is_high u) [
  | true ↦ elim (is_low v) [
    | true ↦ cons? (0x10000 + (u - 0xd800) * 0x400 + (v - 0xdc00)) (from_utf16 rest)
    | false ↦ none
  ]
  | false ↦ elim (is_low u) [ true ↦ none | false ↦ cons? u (from_utf16 (v ∷ rest)) ]
]

-- `String::from_utf16_lossy`: U+FFFD takes the place of an unpaired surrogate.
unfoldable pub from_utf16_lossy : List ℕ → Text
from_utf16_lossy [] = []
from_utf16_lossy (u ∷ []) = (if is_high u || is_low u then 0xfffd else u) ∷ []
from_utf16_lossy (u ∷ v ∷ rest) = elim (is_high u) [
  | true ↦ elim (is_low v) [
    | true ↦ (0x10000 + (u - 0xd800) * 0x400 + (v - 0xdc00)) ∷ from_utf16_lossy rest
    | false ↦ 0xfffd ∷ from_utf16_lossy (v ∷ rest)
  ]
  | false ↦ (if is_low u then 0xfffd else u) ∷ from_utf16_lossy (v ∷ rest)
]

unfoldable pub to_utf16_null : Text → List ℕ
to_utf16_null s = encode_utf16 s ++ 0 ∷ []

unfoldable pub encode_utf16_nul : Text → List ℕ
encode_utf16_nul s = encode_utf16 s ++ 0 ∷ []

unfoldable pub strip_nul : List ℕ → List ℕ
strip_nul [] = []
strip_nul (u ∷ []) = if u == 0 then [] else u ∷ []
strip_nul (u ∷ v ∷ rest) = u ∷ strip_nul (v ∷ rest)
