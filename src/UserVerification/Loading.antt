-- ===== src/UserVerification/Loading.antt =====
-- What the bindings of user verification are when they have been loaded.
use kee_pass_key_win.Prelude.{
  ℕ, false, Text, ok, Exec, ◌>>=◌, and_then, return, ◌≡◌, ◌∙◌, refl, sym, ap, subst, arith,
  Result-cases, inl, inr,
}
use kee_pass_key_win.World.{Externals, Process, WebauthnBindings}
use kee_pass_key_win.Dll.{load_webauthn, get_proc}
use kee_pass_key_win.UserVerification.{
  no_proc, add_names, remove_names, free_response_names, perform_uv_names, free_uv_names, resolved,
  choose_v2, choose, load_bindings,
}
use kee_pass_key_win.UserVerification.Tiers.{Tiered}

-- Whatever `m` gives when it succeeds is as `P` says.
record Yields {A : Type 0} (P : A → Type 0) (m : Exec Process Text A) : Type 0 where
  yields : (p : Process) (a : A) → (m p).0 ≡ ok a → P a

anything : {A : Type 0} (m : Exec Process Text A) → Yields (λ a. Unit {0}) m
anything m = record { yields = λ p a h. tt }

>>=-Yields :
    {A B : Type 0} (Q : A → Type 0) (P : B → Type 0) (m : Exec Process Text A)
    (f : A → Exec Process Text B)
    → Yields Q m
    → ((a : A) → Q a → Yields P (f a))
    → Yields P (m >>= f)
>>=-Yields Q P m f hm hf = record {
  yields = λ p b h. elim (Result-cases (m p).0) [
    | inl (a, e) ↦
        (hf a (hm.yields p a e)).yields (m p).1 b (sym (ap (λ r. (and_then r f (m p).1).0) e) ∙ h)
    | inr (t, e) ↦ ground (arith, sym (ap (λ r. (and_then r f (m p).1).0) e) ∙ h)
  ];
}

-- The tier fits the entrypoint, and v2 is not known to be unimplemented.
abbrev pub IsFresh : WebauthnBindings → Type 0
IsFresh b = Tiered b.perform_uv_v2 b.perform_uv_tier × (b.v2_unimplemented ≡ false)

return-Yields : (b : WebauthnBindings) → IsFresh b → Yields IsFresh (return b)
return-Yields b h = record {
  yields = λ p a e. let same : b ≡ a = ground (arith, e) in subst IsFresh same h;
}

module _ {V : Type 0} (x : Externals V) where
  choose-Yields : (hmod : ℕ) → Yields (λ c. Tiered c.entry c.tier) (choose x hmod)
  unfolding choose_v2
  choose-Yields hmod = record { yields = λ p c h. ground (arith, h) }

  -- A step whose result may be anything, before the others.
  then-Yields :
      {A : Type 0} (m : Exec Process Text A) (f : A → Exec Process Text WebauthnBindings)
      → ((a : A) → Yields IsFresh (f a))
      → Yields IsFresh (m >>= f)
  then-Yields m f h = >>=-Yields _ IsFresh m f (anything m) (λ a u. h a)

  load_bindings-Yields : Yields IsFresh (load_bindings x)
  unfolding load_bindings
  load_bindings-Yields = then-Yields (load_webauthn x) _ λ hmod.
      then-Yields (get_proc x hmod no_proc add_names) _ λ add.
        then-Yields (get_proc x hmod no_proc remove_names) _ λ rem.
          then-Yields (get_proc x hmod no_proc free_response_names) _ λ free.
            then-Yields (get_proc x hmod no_proc perform_uv_names) _ λ uv.
              >>=-Yields _ IsFresh (choose x hmod) _ (choose-Yields hmod) λ uv2 tiered.
                then-Yields (get_proc x hmod no_proc free_uv_names) _
                  λ free_uv. return-Yields (resolved add rem free uv uv2 free_uv) (tiered, refl)

  -- Whenever the entrypoints load, the tier is v1 exactly if there is no v2 entrypoint, and v2 is
  -- not taken to be unimplemented.
  pub load_bindings-IsFresh :
      (p : Process) (b : WebauthnBindings) → (load_bindings x p).0 ≡ ok b → IsFresh b
  load_bindings-IsFresh p b h = load_bindings-Yields.yields p b h
