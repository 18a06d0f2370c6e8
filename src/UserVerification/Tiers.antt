-- ===== src/UserVerification/Tiers.antt =====
-- Which entrypoint verifies the user: the v2 one as long as it is implemented, and the v1 one after it
-- once said that it is not.
use kee_pass_key_win.Prelude.{
  ℕ, ◌+◌, ◌≤◌, Bool, true, false, Option, none, some, List, [], ◌∷◌, Text, Result, ok, err, Exec,
  ◌≡◌, ◌≢◌, arith, refl, count_if, inl, inr, ◌∙◌, subst, length, ◌%◌, ◌^◌, if◌then◌else◌, ◌==◌,
  Option-cases,
}
use kee_pass_key_win.World.{
  Guid, OutBuffer, UserVerificationRequest, UserVerificationRequest2, BufferReply, UvTier, v1,
  Externals, Process, WebauthnBindings, Event, History, uv1_called, uv2_called,
}
use kee_pass_key_win.Hresult.{e_notimpl}
use kee_pass_key_win.UserVerification.{choose_v2, verify_with, perform_user_verification_2}

abbrev is_v1_call : Event → Bool
is_v1_call (uv1_called r h o) = true
is_v1_call _ = false

abbrev is_v2_call : Event → Bool
is_v2_call (uv2_called r h o) = true
is_v2_call _ = false

-- Calls of the v1 and of the v2 entrypoint.
abbrev pub v1_calls : History → ℕ
v1_calls = count_if is_v1_call

abbrev pub v2_calls : History → ℕ
v2_calls = count_if is_v2_call

-- The tier that goes with the v2 entrypoint, or with its absence.
abbrev pub Tiered : Option ℕ → UvTier → Type 0
Tiered none tier = tier ≡ v1
Tiered (some f) tier = tier ≢ v1

-- Calls of v2 that were answered with E_NOTIMPL.
abbrev is_refusal : Event → Bool
is_refusal (uv2_called r h o) = h == e_notimpl
is_refusal _ = false

abbrev pub refusals : History → ℕ
refusals = count_if is_refusal

-- Whether v2 may still be called: 1 if so.
abbrev pub chances : Option (Result Text WebauthnBindings) → ℕ
chances (some (ok b)) = if b.v2_unimplemented then 0 else 1
chances _ = 0

abbrev pub IsLoaded : Option (Result Text WebauthnBindings) → Type 0
IsLoaded (some (ok b)) = Tiered b.perform_uv_v2 b.perform_uv_tier
IsLoaded _ = ⊥

abbrev Latched : Option (Result Text WebauthnBindings) → Type 0
Latched (some (ok b)) = b.v2_unimplemented ≡ true
Latched _ = ⊥

-- The outcome of a verification, by the tier that it reports.
abbrev pub Verified : Process → (BufferReply × UvTier) × Process → Type 0
Verified p ((r, v1), q) =
    (v1_calls q.history ≡ v1_calls p.history + 1)
    × (v2_calls q.history ≤ v2_calls p.history + 1)
    × (v2_calls q.history + refusals p.history ≡ v2_calls p.history + refusals q.history)
Verified p ((r, tier), q) =
    (v1_calls q.history ≡ v1_calls p.history)
    × (v2_calls q.history ≡ v2_calls p.history + 1)
    × (r.hr ≢ e_notimpl)

module _ {V : Type 0} (x : Externals V) where
  choose_v2-Tiered :
      (hmod : ℕ) (p : Process) → let c = (choose_v2 x hmod p).0 in Tiered c.entry c.tier
  unfolding choose_v2
  choose_v2-Tiered hmod p = ground arith

  module _ (b : WebauthnBindings) (req1 : UserVerificationRequest) (req2 : UserVerificationRequest2)
      (out : OutBuffer) (p : Process) where
    -- A verification by resolved bindings: one whose tier is v1 has called v1 once and v2 at most once,
    -- as often as v2 answered E_NOTIMPL; one of another tier has called v2 alone, once, and was not
    -- answered E_NOTIMPL. So v1 does not ask after any other answer of v2, such as E_ABORT.
    pub verify_with-Verified :
        Tiered b.perform_uv_v2 b.perform_uv_tier
        → p.bindings ≡ some (ok b)
        → Verified p (verify_with x b req1 req2 out p)
    unfolding verify_with
    verify_with-Verified t e = ground arith

    -- The flag is set by E_NOTIMPL from v2, by nothing else, and is never taken back.
    verify_with-chances :
        Tiered b.perform_uv_v2 b.perform_uv_tier
        → p.bindings ≡ some (ok b)
        → let q = (verify_with x b req1 req2 out p).1 in
          (refusals q.history + chances q.bindings ≡ refusals p.history + chances p.bindings)
          × IsLoaded q.bindings
    unfolding verify_with
    verify_with-chances t e = ground arith

    -- With v2 known to be unimplemented, the user is verified by v1 alone, and it stays known.
    verify_with-Latched :
        b.v2_unimplemented ≡ true
        → p.bindings ≡ some (ok b)
        → let q = (verify_with x b req1 req2 out p).1 in
          (v2_calls q.history ≡ v2_calls p.history)
          × (v1_calls q.history ≡ v1_calls p.history + 1)
          × Latched q.bindings
    unfolding verify_with
    verify_with-Latched h e = ground arith

-- The arguments of one verification.
pub record Prompt : Type 0 where
  pub hwnd : ℕ
  pub transaction_id : Guid
  pub username : List ℕ
  pub display_hint : List ℕ
  pub buffer_to_sign : List ℕ
  pub out : OutBuffer

module _ {V : Type 0} (x : Externals V) where
  abbrev pub verify : Prompt → Exec Process Text (BufferReply × UvTier)
  verify r =
      perform_user_verification_2 x r.hwnd r.transaction_id r.username r.display_hint
        r.buffer_to_sign r.out

  -- Verifications one after the other.
  abbrev pub verify_all : List Prompt → Process → Process
  verify_all [] p = p
  verify_all (r ∷ rs) p = verify_all rs (verify r p).1

  abbrev request1 : Prompt → UserVerificationRequest
  request1 r = record {
    hwnd = r.hwnd;
    transaction_id = r.transaction_id;
    username = r.username;
    display_hint = r.display_hint;
  }

  abbrev request2 : Prompt → UserVerificationRequest2
  request2 r = record {
    hwnd = r.hwnd;
    transaction_id = r.transaction_id;
    username = r.username;
    display_hint = r.display_hint;
    cb_buffer_to_sign = length r.buffer_to_sign % 2 ^ 32;
    buffer_to_sign = r.buffer_to_sign;
  }

  verify-loaded :
      (r : Prompt) (p : Process) (b : WebauthnBindings)
      → p.bindings ≡ some (ok b)
      → verify r p ≡ (let (a, q) = verify_with x b (request1 r) (request2 r) r.out p in (ok a, q))
  unfolding perform_user_verification_2
  verify-loaded r p b e = ground arith

  verify-chances :
      (r : Prompt) (p : Process)
      → IsLoaded p.bindings
      → let q = (verify r p).1 in
        (refusals q.history + chances q.bindings ≡ refusals p.history + chances p.bindings)
        × IsLoaded q.bindings
  verify-chances r p w = elim (Option-cases p.bindings) [
    | inl e ↦ absurd (subst IsLoaded e w)
    | inr (err m, e) ↦ absurd (subst IsLoaded e w)
    | inr (ok b, e) ↦
        rw (verify-loaded r p b e)
          (verify_with-chances x b (request1 r) (request2 r) r.out p (subst IsLoaded e w) e)
  ]

  -- From resolved bindings on, however many prompts follow, v2 answers E_NOTIMPL at most once: the
  -- process does not call it again.
  pub verify_all-refusals :
      (rs : List Prompt) (p : Process)
      → IsLoaded p.bindings
      → let q = verify_all rs p in
        refusals q.history + chances q.bindings ≡ refusals p.history + chances p.bindings
  verify_all-refusals [] p w = refl
  verify_all-refusals (r ∷ rs) p w =
      let (e, w') = verify-chances r p w in verify_all-refusals rs (verify r p).1 w' ∙ e
