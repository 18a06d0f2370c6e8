-- ===== src/Registry/Outcomes.antt =====
-- What is read from the registry: the nonce that was stored, or the reason why there is none.
use kee_pass_key_win.Prelude.{
  ℕ, suc, zero, ◌/◌, ◌<◌, List, [], ◌∷◌, ◌++◌, Text, ok, ◌≡◌, ◌≢◌, ◌∙◌, ap, refl, arith, length,
  take,
}
use kee_pass_key_win.Utf16.{encode_char, encode_utf16, from_utf16}
use kee_pass_key_win.Utf16.RoundTrip.{AllScalar, from_utf16-encode_utf16}
use kee_pass_key_win.Registry.{until_nul, read_reply, reg_sz, or_malformed}

-- No code unit is 0.
abbrev pub AllNonzero : List ℕ → Type 0
AllNonzero [] = Unit
AllNonzero (u ∷ us) = (u ≢ 0) × AllNonzero us

AllNonzero-append : (us ws : List ℕ) → AllNonzero us → AllNonzero ws → AllNonzero (us ++ ws)
AllNonzero-append [] ws h k = k
AllNonzero-append (u ∷ us) ws h k = (h.0, AllNonzero-append us ws h.1 k)

encode_char-AllNonzero : (c : ℕ) → c ≢ 0 → AllNonzero (encode_char c)
unfolding encode_char
encode_char-AllNonzero c h = ground arith

encode_utf16-AllNonzero : (t : Text) → AllNonzero t → AllNonzero (encode_utf16 t)
unfolding encode_utf16
encode_utf16-AllNonzero [] h = tt
encode_utf16-AllNonzero (c ∷ cs) h =
    AllNonzero-append (encode_char c) _ (encode_char-AllNonzero c h.0)
      (encode_utf16-AllNonzero cs h.1)

-- What stands before the terminator, when it is among the units that are looked at.
pub until_nul-take :
    (us ws : List ℕ) (n : ℕ)
    → AllNonzero us
    → length us < n
    → until_nul (take n (us ++ 0 ∷ ws)) ≡ us
unfolding until_nul
until_nul-take us ws zero h k = elim k [ ]
until_nul-take [] ws (suc n) h k = refl
until_nul-take (u ∷ us) ws (suc n) h k =
    ground (arith, until_nul-take us ws n h.1 (omega arith), h.0)

-- A null-terminated REG_SZ value that holds a text without a zero character is read as that text,
-- whatever stands behind the terminator in the buffer.
pub read_reply-nonce :
    (t : Text) (rest : List ℕ) (n : ℕ)
    → AllScalar t
    → AllNonzero t
    → length (encode_utf16 t) < n / 2
    → read_reply
        (record { status = 0; value_type = reg_sz; cb = n; buf = encode_utf16 t ++ 0 ∷ rest })
      ≡ ok t
unfolding read_reply
read_reply-nonce t rest n s h k =
    let e = until_nul-take (encode_utf16 t) rest (n / 2) (encode_utf16-AllNonzero t h) k in
    ap (λ (us : List ℕ). or_malformed (from_utf16 us)) e
    ∙ ap or_malformed (from_utf16-encode_utf16 t s)
