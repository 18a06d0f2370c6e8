-- ===== src/Reconciliation/Convergence.antt =====
-- What the calls of a reconciliation make of the system's list, if each addition puts its credential
-- in and each removal takes out the entry of the position that it names.
use kee_pass_key_win.Prelude.{
  ℕ, ◌+◌, ◌<◌, Bool, true, false, ◌&&◌, ◌||◌, not, none, some, List, [], ◌∷◌, ◌++◌, ◌≡◌, refl, ap,
  arith, is_empty, eq_text, eq_text_eq, Bool-cases, Option-cases, inl, inr, ◌==◌, if◌then◌else◌,
}
use kee_pass_key_win.World.{CredentialDetails, Externals}
use kee_pass_key_win.Reconciliation.{contains, item_id, vault_ids}
use kee_pass_key_win.Reconciliation.Differences.{missing, stale_indexes, wanted}

abbrev pub among : ℕ → List ℕ → Bool
among i [] = false
among i (j ∷ js) = (i == j) || among i js

-- The entries whose positions, from `i` on, are not among those removed.
abbrev pub spared : List ℕ → ℕ → List (List ℕ) → List (List ℕ)
spared removed i [] = []
spared removed i (id ∷ ids) =
    let rest = spared removed (i + 1) ids in if among i removed then rest else id ∷ rest

abbrev pub new_ids : List CredentialDetails → List (List ℕ)
new_ids [] = []
new_ids (d ∷ ds) = d.credential_id ∷ new_ids ds

-- The entries that stay.
abbrev kept : List (List ℕ) → List (List ℕ) → List (List ℕ)
kept vault [] = []
kept vault (id ∷ ids) =
    let rest = kept vault ids in if is_empty id || contains vault id then id ∷ rest else rest

pub contains-append :
    (xs ys : List (List ℕ)) (id : List ℕ)
    → contains (xs ++ ys) id ≡ (contains xs id || contains ys id)
unfolding contains
contains-append [] ys id = refl
contains-append (x ∷ xs) ys id = ground (arith, contains-append xs ys id)

-- No position before `i` is among the stale ones from `i` on.
stale_indexes-above :
    (vault : List (List ℕ)) (i j : ℕ) (ids : List (List ℕ))
    → i < j
    → among i (stale_indexes vault j ids) ≡ false
stale_indexes-above vault i j [] h = refl
stale_indexes-above vault i j (id ∷ ids) h =
    ground (arith, stale_indexes-above vault i (j + 1) ids (omega (arith, h)))

spared-cons :
    (j i : ℕ) (js : List ℕ) (ids : List (List ℕ)) → j < i → spared (j ∷ js) i ids ≡ spared js i ids
spared-cons j i js [] h = refl
spared-cons j i js (id ∷ ids) h = ground (arith, spared-cons j (i + 1) js ids (omega (arith, h)))

spared-stale :
    (vault : List (List ℕ)) (i : ℕ) (ids : List (List ℕ))
    → spared (stale_indexes vault i ids) i ids ≡ kept vault ids
spared-stale vault i [] = refl
spared-stale vault i (id ∷ ids) =
    let rest = stale_indexes vault (i + 1) ids in
    ground (
      arith,
      spared-stale vault (i + 1) ids,
      stale_indexes-above vault i (i + 1) ids (omega arith),
      spared-cons i (i + 1) rest ids (omega arith),
    )

contains-kept :
    (vault ids : List (List ℕ)) (id : List ℕ)
    → is_empty id ≡ false
    → contains (kept vault ids) id ≡ (contains ids id && contains vault id)
unfolding contains
contains-kept vault [] id h = refl
contains-kept vault (k ∷ ids) id h = elim (Bool-cases (eq_text k id)) [
  | inl e ↦
      let same = eq_text_eq k id e in
      ground (
        arith,
        e,
        h,
        ap (λ k. is_empty k) same,
        ap (λ k. contains vault k) same,
        contains-kept vault ids id h,
      )
  | inr e ↦ ground (arith, e, contains-kept vault ids id h)
]

module _ {V : Type 0} (x : Externals V) (known : List (List ℕ)) where
  -- Each item of the vault that the system does not know has fields that can be read, with the
  -- item's own identifier.
  abbrev pub AllReadable : List V → Type 0
  AllReadable [] = Unit
  AllReadable (item ∷ items) =
      ((id : List ℕ)
        → item_id x item ≡ some id
        → contains known id ≡ false
        → (d : CredentialDetails) × (wanted x known item ≡ some d) × (d.credential_id ≡ id))
      × AllReadable items

  vault_ids-none :
      (item : V) (items : List V)
      → item_id x item ≡ none
      → vault_ids x (item ∷ items) ≡ vault_ids x items
  unfolding vault_ids
  vault_ids-none item items e = rw (e, vault_ids)

  vault_ids-some :
      (item : V) (items : List V) (id : List ℕ)
      → item_id x item ≡ some id
      → vault_ids x (item ∷ items) ≡ id ∷ vault_ids x items
  unfolding vault_ids
  vault_ids-some item items id e = rw (e, vault_ids)

  wanted-none : (item : V) → item_id x item ≡ none → wanted x known item ≡ none
  wanted-none item e = rw (e, wanted)

  wanted-known :
      (item : V) (id : List ℕ)
      → item_id x item ≡ some id
      → contains known id ≡ true
      → wanted x known item ≡ none
  wanted-known item id e k = rw (e, wanted) (rw (k, wanted))

  -- Those are added that the vault has and the system does not.
  contains-missing :
      (vault : List V) (id : List ℕ)
      → AllReadable vault
      → contains (new_ids (missing x known vault)) id
        ≡ (contains (vault_ids x vault) id && not (contains known id))
  unfolding contains vault_ids
  contains-missing [] id h = refl
  contains-missing (item ∷ items) id h =
      let rest = contains-missing items id h.1 in
      elim (Option-cases (item_id x item)) [
        | inl e ↦ ground (arith, wanted-none item e, vault_ids-none item items e, rest)
        | inr (j, e) ↦ elim (Bool-cases (contains known j)) [
          | inl k ↦ elim (Bool-cases (eq_text j id)) [
            | inl same ↦ ground (
              arith,
              wanted-known item j e k,
              vault_ids-some item items j e,
              rest,
              same,
              ap (λ i. contains known i) (eq_text_eq j id same),
              k,
            )
            | inr differs ↦
                ground
                  (arith, wanted-known item j e k, vault_ids-some item items j e, rest, differs)
          ]
          | inr k ↦
              let (d, wants, own) = h.0 j e k in
              let named = ap (λ i. eq_text i id) own in
              elim (Bool-cases (eq_text j id)) [
                | inl same ↦ ground (
                  arith,
                  wants,
                  vault_ids-some item items j e,
                  rest,
                  same,
                  named,
                  ap (λ i. contains known i) (eq_text_eq j id same),
                  k,
                )
                | inr differs ↦
                    ground (arith, wants, vault_ids-some item items j e, rest, differs, named)
              ]
        ]
      ]

  -- The system's list after the calls of a reconciliation.
  abbrev pub entries_after : List V → List (List ℕ)
  entries_after vault =
      new_ids (missing x known vault) ++ spared (stale_indexes (vault_ids x vault) 0 known) 0 known

  -- If all items of the vault that the system does not know can be read, its list then holds exactly
  -- the identifiers of the vault, empty ones aside.
  pub entries_after-contains :
      (vault : List V) (id : List ℕ)
      → AllReadable vault
      → is_empty id ≡ false
      → contains (entries_after vault) id ≡ contains (vault_ids x vault) id
  entries_after-contains vault id h e =
      let vids = vault_ids x vault in
      ground (
        arith,
        contains-append (new_ids (missing x known vault))
            (spared (stale_indexes vids 0 known) 0 known) id,
        ap (λ ids. contains ids id) (spared-stale vids 0 known),
        contains-missing vault id h,
        contains-kept vids known id e,
      )
