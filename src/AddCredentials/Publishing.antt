-- ===== src/AddCredentials/Publishing.antt =====
-- What the system is told of a credential, and from where it comes.
use kee_pass_key_win.Prelude.{
  true, some, ap, sym, ◌∙◌, ◌∷◌, String, str_eq, ◌≡◌, ◌⊎◌, refl, arith, Bool-cases, Result-cases,
  inl, inr,
}
use kee_pass_key_win.World.{CredentialDetails, Externals, Process}
use kee_pass_key_win.World.Counts.{published}
use kee_pass_key_win.CredentialStore.{load_bindings, bindings, add_credentials}
use kee_pass_key_win.AddCredentials.{
  details_of, parse_add_credentials_fields, publish, try_add_credentials,
}
use kee_pass_key_win.AddCredentials.Described.{
  described, details_or_none, parse_add_credentials_fields-described,
}

-- Nothing was published between `p` and `q`, or one record.
abbrev pub Told : Process → Process → CredentialDetails → Type 0
Told p q d = published q.history ≡ d ∷ published p.history

abbrev pub Untold : Process → Process → Type 0
Untold p q = published q.history ≡ published p.history

module _ {V : Type 0} (x : Externals V) where
  load_bindings-Untold : (p : Process) → Untold p (load_bindings x p).1
  unfolding load_bindings
  load_bindings-Untold p = ground arith

  bindings-Untold : (p : Process) → Untold p (bindings x p).1
  unfolding bindings
  bindings-Untold p = ground (arith, load_bindings-Untold p)

  add_credentials-Told :
      (d : CredentialDetails) (p : Process)
      → let q = (add_credentials x d p).1 in Untold p q ⊎ Told p q d
  unfolding add_credentials
  add_credentials-Told d p = ground (arith, bindings-Untold p)

  -- The one credential that the value of a reply describes.
  abbrev pub IsNew : V → Process → Process → Type 0
  IsNew v p q = (d : CredentialDetails) × (described x v ≡ some d) × Told p q d

  publish-Told :
      (v : V) (p : Process)
      → let q = publish x (parse_add_credentials_fields x v) p in Untold p q ⊎ IsNew v p q
  unfolding publish
  publish-Told v p = elim (Result-cases (parse_add_credentials_fields x v)) [
    | inl (f, e) ↦ elim (add_credentials-Told (details_of f) p) [
      | inl n ↦ inl (rw (e, publish) n)
      | inr t ↦ inr (
        details_of f,
        sym (parse_add_credentials_fields-described x v) ∙ ap details_or_none e,
        rw (e, publish) t,
      )
    ]
    | inr (m, e) ↦ inl (rw (e, publish) refl)
  ]

  -- Publishing tells the system of one credential at most, and only for a creation.
  pub try_add_credentials-Told :
      (method : String) (v : V) (p : Process)
      → let q = try_add_credentials x method v p in
        Untold p q ⊎ ((str_eq method "keepasskeywin.makeCredentialRaw" ≡ true) × IsNew v p q)
  unfolding try_add_credentials
  try_add_credentials-Told method v p =
      elim (Bool-cases (str_eq method "keepasskeywin.makeCredentialRaw")) [
        | inr e ↦ inl (rw (e, try_add_credentials) refl)
        | inl e ↦ elim (publish-Told v p) [
          | inl n ↦ inl (rw (e, try_add_credentials) n)
          | inr (f, h, t) ↦ inr (e, (f, h, rw (e, try_add_credentials) t))
        ]
      ]
