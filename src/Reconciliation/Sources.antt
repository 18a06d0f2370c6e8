-- ===== src/Reconciliation/Sources.antt =====
-- The two lists that `reconcile_vault_with_os` of src/KeePassKeyWin.Provider/src/com/exe_server.rs
-- compares, described by what the system's records and the vault's items hold, and what stands in one
-- of them only.
use kee_pass_key_win.Prelude.{
  ℕ, zero, suc, ◌+◌, ◌<◌, Bool, true, false, ◌||◌, ◌&&◌, not, Option, none, some, List, [], ◌∷◌,
  ◌≡◌, ◌∙◌, ap, ap₂, refl, sym, arith, is_empty, eq_text, length, get_elem?, if◌then◌else◌, ◌==◌,
  Option-cases, inl, inr,
}
use kee_pass_key_win.World.{CredentialDetails, Externals, OutBuffer, Process}
use kee_pass_key_win.AddCredentials.Parsing.{text, bytes}
use kee_pass_key_win.AddCredentials.Described.{described, parse_add_credentials_fields-described}
use kee_pass_key_win.Reconciliation.{
  contains, has_array, item_id, os_id, os_ids, os_ids_from, translated, vault_ids,
}
use kee_pass_key_win.Reconciliation.Differences.{missing, onto, stale_indexes, wanted}
use kee_pass_key_win.Reconciliation.Convergence.{AllReadable}

abbrev pub is_among : List (List ℕ) → List ℕ → Bool
is_among [] id = false
is_among (i ∷ is) id = eq_text i id || is_among is id

-- The positions, from `i` on, of the identifiers that are not empty and not among those of the vault.
abbrev pub to_remove : List (List ℕ) → ℕ → List (List ℕ) → List ℕ
to_remove vault i [] = []
to_remove vault i (id ∷ ids) =
    let rest = to_remove vault (i + 1) ids in
    if not (is_empty id) && not (is_among vault id) then i ∷ rest else rest

pub contains-is_among : (ids : List (List ℕ)) (id : List ℕ) → contains ids id ≡ is_among ids id
unfolding contains
contains-is_among [] id = refl
contains-is_among (i ∷ is) id = ap (λ (b : Bool). eq_text i id || b) (contains-is_among is id)

pub stale_indexes-to_remove :
    (vault : List (List ℕ)) (i : ℕ) (ids : List (List ℕ))
    → stale_indexes vault i ids ≡ to_remove vault i ids
stale_indexes-to_remove vault i [] = refl
stale_indexes-to_remove vault i (id ∷ ids) =
    rw (contains-is_among vault id, stale_indexes-to_remove vault (i + 1) ids) refl

-- Lists of the same length that agree at each place are the same.
same_list :
    {A : Type 0} (xs ys : List A)
    → length xs ≡ length ys
    → ((i : ℕ) → i < length xs → get_elem? xs i ≡ get_elem? ys i)
    → xs ≡ ys
same_list [] [] n h = refl
same_list [] (y ∷ ys) n h = absurd (omega (arith, n))
same_list (x ∷ xs) [] n h = absurd (omega (arith, n))
same_list (x ∷ xs) (y ∷ ys) n h =
    let first : x ≡ y = let e = h 0 (omega arith) in ground (arith, e) in
    ap₂ (λ z zs. z ∷ zs) first
      (same_list xs ys (omega (arith, n)) (λ i lt. h (suc i) (omega (arith, lt))))

module _ {V : Type 0} (x : Externals V) where
  -- The bytes behind a pointer with a count; none if either is 0.
  abbrev stored : Process → ℕ → ℕ → List ℕ
  stored p zero cb = []
  stored p (suc ptr) zero = []
  stored p (suc ptr) (suc cb) = x.read_memory p.history (suc ptr) (suc cb)

  -- The identifier in a record of the system's array.
  abbrev entry : ℕ → Process → ℕ → List ℕ
  entry arr p i = let d = x.credential_detail p.history arr i in stored p d.ptr d.cb

  -- The identifiers of the system's array, one for each of its records, in their order.
  abbrev pub AreListed : OutBuffer → Process → List (List ℕ) → Type 0
  AreListed os p known =
      (length known ≡ os.cb) × ((i : ℕ) → i < os.cb → get_elem? known i ≡ some (entry os.ptr p i))

  -- The identifier of a vault item, if it has one that decodes, and those of all of them.
  abbrev pub identifier : V → Option (List ℕ)
  identifier item = bytes x (text x item "credentialId")

  abbrev prepend : Option (List ℕ) → List (List ℕ) → List (List ℕ)
  prepend none ids = ids
  prepend (some id) ids = id ∷ ids

  abbrev pub identifiers : List V → List (List ℕ)
  identifiers [] = []
  identifiers (item ∷ items) = prepend (identifier item) (identifiers items)

  -- The credential that an item describes, whose fields have other names in the vault.
  abbrev pub credential_of : V → Option CredentialDetails
  credential_of item = described x (
      x.object (
        ("credentialIdB64Url", x.index item "credentialId")
        ∷ ("rpId", x.index item "rpId")
        ∷ ("rpName", x.index item "rpName")
        ∷ ("userHandleB64Url", x.index item "userHandle")
        ∷ ("userName", x.index item "userName")
        ∷ ("userDisplayName", x.index item "userDisplayName")
        ∷ []))

  abbrev unless_among :
      List (List ℕ) → Option (List ℕ) → Option CredentialDetails → Option CredentialDetails
  unless_among known none d = none
  unless_among known (some id) d = if is_among known id then none else d

  -- The credentials of the items whose identifiers the system does not know.
  abbrev pub to_add : List (List ℕ) → List V → List CredentialDetails
  to_add known [] = []
  to_add known (item ∷ items) =
      onto (unless_among known (identifier item) (credential_of item)) (to_add known items)

  -- Each item that the system does not know describes a credential, with the item's own identifier.
  abbrev pub AllDescribed : List (List ℕ) → List V → Type 0
  AllDescribed known [] = Unit
  AllDescribed known (item ∷ items) =
      ((id : List ℕ)
        → identifier item ≡ some id
        → is_among known id ≡ false
        → (d : CredentialDetails) × (credential_of item ≡ some d) × (d.credential_id ≡ id))
      × AllDescribed known items

  item_id-identifier : (item : V) → item_id x item ≡ identifier item
  unfolding item_id
  item_id-identifier item = ground arith

  pub vault_ids-identifiers : (vault : List V) → vault_ids x vault ≡ identifiers vault
  unfolding vault_ids
  vault_ids-identifiers [] = refl
  vault_ids-identifiers (item ∷ items) =
      ground (arith, item_id-identifier item, vault_ids-identifiers items)

  wanted-credential_of :
      (known : List (List ℕ)) (item : V)
      → wanted x known item ≡ unless_among known (identifier item) (credential_of item)
  unfolding translated
  wanted-credential_of known item =
      let read = parse_add_credentials_fields-described x (translated x item) in
      elim (Option-cases (identifier item)) [
        | inl e ↦ rw (e, item_id-identifier item ∙ e, wanted) refl
        | inr (id, e) ↦
            rw (e, item_id-identifier item ∙ e, wanted, contains-is_among known id, read) refl
      ]

  pub missing-to_add :
      (known : List (List ℕ)) (vault : List V) → missing x known vault ≡ to_add known vault
  missing-to_add known [] = refl
  missing-to_add known (item ∷ items) =
      ap₂ onto (wanted-credential_of known item) (missing-to_add known items)

  stored-read :
      (p : Process) (ptr cb : ℕ)
      → (if (ptr == 0) || (cb == 0) then [] else x.read_memory p.history ptr cb) ≡ stored p ptr cb
  stored-read p zero cb = ground arith
  stored-read p (suc ptr) zero = ground arith
  stored-read p (suc ptr) (suc cb) = ground arith

  os_id-entry : (arr i : ℕ) (p : Process) → os_id x arr i p ≡ entry arr p i
  unfolding os_id
  os_id-entry arr i p = let d = x.credential_detail p.history arr i in stored-read p d.ptr d.cb

  os_ids_from-length : (n i arr : ℕ) (p : Process) → length (os_ids_from x n i arr p) ≡ n
  unfolding os_ids_from
  os_ids_from-length zero i arr p = refl
  os_ids_from-length (suc n) i arr p = ap suc (os_ids_from-length n (i + 1) arr p)

  os_ids_from-entry :
      (n i arr : ℕ) (p : Process) (j : ℕ)
      → j < n
      → get_elem? (os_ids_from x n i arr p) j ≡ some (entry arr p (i + j))
  unfolding os_ids_from
  os_ids_from-entry zero i arr p j h = absurd (omega (arith, h))
  os_ids_from-entry (suc n) i arr p zero h =
      let here : i ≡ i + 0 = omega arith in
      ap some (os_id-entry arr i p) ∙ ap (λ (k : ℕ). some (entry arr p k)) here
  os_ids_from-entry (suc n) i arr p (suc j) h =
      let next : i + 1 + j ≡ i + suc j = omega arith in
      os_ids_from-entry n (i + 1) arr p j (omega (arith, h))
      ∙ ap (λ (k : ℕ). some (entry arr p k)) next

  pub os_ids-AreListed :
      (os : OutBuffer) (p : Process) → has_array os ≡ true → AreListed os p (os_ids x os p)
  unfolding os_ids
  os_ids-AreListed os p h =
      rw (h, os_ids)
        (
          os_ids_from-length os.cb 0 os.ptr p,
          λ i lt.
              let here : 0 + i ≡ i = omega arith in
              os_ids_from-entry os.cb 0 os.ptr p i lt
              ∙ ap (λ (k : ℕ). some (entry os.ptr p k)) here,
        )

  -- There is one such list.
  pub AreListed-os_ids :
      (os : OutBuffer) (p : Process) (known : List (List ℕ))
      → has_array os ≡ true
      → AreListed os p known
      → known ≡ os_ids x os p
  AreListed-os_ids os p known h k =
      let (n, at) = os_ids-AreListed os p h in
      same_list known (os_ids x os p) (k.0 ∙ sym n) (λ i lt.
        let within : i < os.cb = omega (arith, lt, k.0) in k.1 i within ∙ sym (at i within))

  pub AllDescribed-AllReadable :
      (known : List (List ℕ)) (vault : List V)
      → AllDescribed known vault
      → AllReadable x known vault
  AllDescribed-AllReadable known [] h = tt
  AllDescribed-AllReadable known (item ∷ items) h = (
    λ id e k.
        let there = sym (item_id-identifier item) ∙ e in
        let absent = sym (contains-is_among known id) ∙ k in
        let (d, read, same) = h.0 id there absent in
        let credential = credential_of item in
        let chosen : unless_among known (identifier item) credential ≡ credential =
          ap (λ o. unless_among known o credential) there
          ∙ ap (λ (b : Bool). if b then none else credential) absent in
        (d, wanted-credential_of known item ∙ chosen ∙ read, same),
    AllDescribed-AllReadable known items h.1,
  )
