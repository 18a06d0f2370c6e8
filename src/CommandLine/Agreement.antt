-- ===== src/CommandLine/Agreement.antt =====
-- The two ways in which the provider reads the nonce, `read_nonce_from_registry` of
-- src/KeePassKeyWin.Provider/src/main.rs and `read_handshake_nonce` of com/exe_server.rs, agree.
use kee_pass_key_win.Prelude.{
  ℕ, ◌+◌, ◌*◌, ◌-◌, ◌/◌, some, List, [], ◌∷◌, ◌++◌, Text, ◌≡◌, ◌∙◌, ap, refl, arith, length, take,
  to_option, Option-cases, Bool-cases, inl, inr, ◌==◌,
}
use kee_pass_key_win.World.{RegReply}
use kee_pass_key_win.Utf16.{from_utf16, from_utf16_lossy}
use kee_pass_key_win.Registry.{read_reply, reg_sz, until_nul}
use kee_pass_key_win.Registry.Outcomes.{AllNonzero, until_nul-take}
use kee_pass_key_win.CommandLine.Nonce.{nonce_of_reply}

-- A buffer without unpaired surrogates is decoded in the same way by both functions.
from_utf16_lossy-some : (us : List ℕ) (t : Text) → from_utf16 us ≡ some t → from_utf16_lossy us ≡ t
unfolding from_utf16 from_utf16_lossy
from_utf16_lossy-some [] t h = ground arith
from_utf16_lossy-some (u ∷ []) t h = ground arith
from_utf16_lossy-some (u ∷ v ∷ rest) t h = elim (Option-cases (from_utf16 rest)) [
  | inl e ↦ elim (Option-cases (from_utf16 (v ∷ rest))) [
    | inl f ↦ ground (arith, e, f)
    | inr (r, f) ↦ ground (arith, e, f, from_utf16_lossy-some (v ∷ rest) r f)
  ]
  | inr (s, e) ↦ elim (Option-cases (from_utf16 (v ∷ rest))) [
    | inl f ↦ ground (arith, e, f, from_utf16_lossy-some rest s e)
    | inr (r, f) ↦
        ground (arith, e, f, from_utf16_lossy-some rest s e, from_utf16_lossy-some (v ∷ rest) r f)
  ]
]

take-append : (us ws : List ℕ) → take (length us) (us ++ ws) ≡ us
take-append [] ws = refl
take-append (u ∷ us) ws = ap (λ (r : List ℕ). u ∷ r) (take-append us ws)

-- For a value whose code units hold no zero and no unpaired surrogate, and that is terminated and
-- counted as REG_SZ values are, both ways of reading give the same, whatever status the system answers
-- and whatever stands behind the terminator.
pub nonce_of_reply-read_reply :
    (us rest : List ℕ) (status : ℕ) (t : Text)
    → AllNonzero us
    → from_utf16 us ≡ some t
    → let r : RegReply = record {
      status = status;
      value_type = reg_sz;
      cb = 2 * (length us + 1);
      buf = us ++ 0 ∷ rest;
    } in
      nonce_of_reply r ≡ to_option (read_reply r)
unfolding nonce_of_reply read_reply
nonce_of_reply-read_reply us rest status t h e =
    let n = length us in
    let half : 2 * (n + 1) / 2 ≡ n + 1 = omega arith in
    let back : 2 * (n + 1) / 2 - 1 ≡ n = omega arith in
    let server : until_nul (take (2 * (n + 1) / 2) (us ++ 0 ∷ rest)) ≡ us =
      ap (λ k. until_nul (take k (us ++ 0 ∷ rest))) half
      ∙ until_nul-take us rest (n + 1) h (omega arith) in
    let command : take (2 * (n + 1) / 2 - 1) (us ++ 0 ∷ rest) ≡ us =
      ap (λ k. take k (us ++ 0 ∷ rest)) back ∙ take-append us (0 ∷ rest) in
    let lossy = from_utf16_lossy-some us t e in
    elim (Bool-cases (status == 0)) [ inl z ↦ rw (z, command, server, e, lossy) | inr z ↦ rw z ]
