-- ===== src/Utf16/RoundTrip.antt =====
-- Text survives the way into a null-terminated UTF-16 buffer and back.
use kee_pass_key_win.Prelude.{
  ℕ, ◌≤◌, ◌<◌, ◌⊎◌, some, List, [], ◌∷◌, ◌++◌, Text, ◌≡◌, refl, ap, arith,
}
use kee_pass_key_win.Utf16.{
  encode_char, encode_utf16, from_utf16, encode_utf16_nul, strip_nul, cons?,
}

-- A Unicode scalar value: a Rust `char`.
abbrev pub IsScalar : ℕ → Type 0
IsScalar c = (c < 0xd800) ⊎ ((0xe000 ≤ c) × (c < 0x110000))

abbrev pub AllScalar : Text → Type 0
AllScalar [] = Unit
AllScalar (c ∷ cs) = IsScalar c × AllScalar cs

from_utf16-encode_char :
    (c : ℕ) (rest : List ℕ)
    → IsScalar c
    → from_utf16 (encode_char c ++ rest) ≡ cons? c (from_utf16 rest)
unfolding from_utf16 encode_char
from_utf16-encode_char c [] h = ground arith
from_utf16-encode_char c (v ∷ rest) h = ground arith

pub from_utf16-encode_utf16 : (s : Text) → AllScalar s → from_utf16 (encode_utf16 s) ≡ some s
unfolding encode_utf16 from_utf16
from_utf16-encode_utf16 [] h = refl
from_utf16-encode_utf16 (c ∷ cs) h =
    rw (from_utf16-encode_char c (encode_utf16 cs) h.0) (rw (from_utf16-encode_utf16 cs h.1))

strip_nul-append : (w : List ℕ) → strip_nul (w ++ 0 ∷ []) ≡ w
unfolding strip_nul
strip_nul-append [] = refl
strip_nul-append (u ∷ []) = refl
strip_nul-append (u ∷ v ∷ w) = ap (λ (r : List ℕ). u ∷ r) (strip_nul-append (v ∷ w))

-- Stripping the terminator off the buffer made of a text, and decoding it, gives the text back.
pub from_utf16-strip_nul :
    (s : Text) → AllScalar s → from_utf16 (strip_nul (encode_utf16_nul s)) ≡ some s
unfolding encode_utf16_nul
from_utf16-strip_nul s h = rw strip_nul-append (from_utf16-encode_utf16 s h)
