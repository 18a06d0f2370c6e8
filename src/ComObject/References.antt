-- ===== src/ComObject/References.antt =====
-- The references to a COM object, and the process's own count that they stand for.
use kee_pass_key_win.Prelude.{
  ℕ, zero, suc, ◌+◌, ◌<◌, ◌^◌, true, Option, none, some, ◌-◌, ◌≡◌, ◌∙◌, ap, refl, arith,
}
use kee_pass_key_win.World.{Guid, Process, server_release, emit}
use kee_pass_key_win.World.Counts.{server_add_refs, server_releases}
use kee_pass_key_win.Hresult.{is_err, s_ok}
use kee_pass_key_win.ComObject.{ComObject, Created, Chosen, add_ref, release, hand_over}

-- `n` calls of Release in a row, on the object as long as it is there.
abbrev pub releases : ℕ → Option ComObject × Process → Option ComObject × Process
releases zero r = r
releases (suc n) (none, p) = (none, p)
releases (suc n) (some o, p) = let ((k, left), q) = release o p in releases n (left, q)

abbrev pub object_with : ℕ → ℕ → ComObject
object_with count state = record { ref_count = count; state = state }

release-kept :
    (n s : ℕ) (p : Process)
    → n < 2 ^ 32 - 2
    → release (object_with (n + 2) s) p ≡ ((n + 1, some (object_with (n + 1) s)), p)
unfolding release
release-kept n s p h = ground arith

-- Fewer releases than there are references leave the object, with the references that remain, and
-- do not touch the process.
pub releases-kept :
    (n m s : ℕ) (p : Process)
    → n + m < 2 ^ 32 - 1
    → releases n (some (object_with (n + m + 1) s), p) ≡ (some (object_with (m + 1) s), p)
releases-kept zero m s p h = ap (λ c. (some (object_with c s), p)) (omega arith)
releases-kept (suc n) m s p h =
    let c : suc n + m + 1 ≡ n + m + 2 = omega arith in
    ap (λ c. releases (suc n) (some (object_with c s), p)) c
    ∙ ap (λ r. releases n (r.0.1, r.1)) (release-kept (n + m) s p (omega arith))
    ∙ releases-kept n m s p (omega arith)

-- An object with `n + 1` references is freed by as many releases, and with the last of them the
-- process's own count is released, once; after all but the last it is still there.
pub releases-all :
    (n s : ℕ) (p : Process)
    → n < 2 ^ 32 - 1
    → let o = object_with (suc n) s in
      (releases (suc n) (some o, p) ≡ (none, emit server_release p))
      × (releases n (some o, p) ≡ (some (object_with 1 s), p))
unfolding release
releases-all zero s p h = (refl, refl)
releases-all (suc n) s p h =
    let c : suc (suc n) ≡ n + 2 = omega arith in
    let d : n + 1 ≡ suc n = omega arith in
    let step =
      ap (λ c. release (object_with c s) p) c
      ∙ release-kept n s p (omega arith)
      ∙ ap (λ c. ((c, some (object_with c s)), p)) d in
    let (all, but_one) = releases-all n s p (omega arith) in
    (
      ap (λ r. releases (suc n) (r.0.1, r.1)) step ∙ all,
      ap (λ r. releases n (r.0.1, r.1)) step ∙ but_one,
    )

-- A reference that is added and released again leaves the object and the process as they were.
pub release-add_ref :
    (o : ComObject) (p : Process)
    → 0 < o.ref_count
    → o.ref_count < 2 ^ 32 - 1
    → release (add_ref o).1 p ≡ ((o.ref_count, some o), p)
unfolding release add_ref
release-add_ref o p h k = ground arith

-- What an activation leaves behind.
abbrev pub Handed : Process → Created × Process → Type 0
Handed p (created, q) = elim created.object [
  | none ↦
      (is_err created.hr ≡ true)
      × (server_add_refs q.history + server_releases p.history
          ≡ server_add_refs p.history + server_releases q.history)
  | some o ↦
      (created.hr ≡ s_ok)
      × (server_add_refs q.history ≡ server_add_refs p.history + 1)
      × (server_releases q.history ≡ server_releases p.history)
      × (o.ref_count ≡ 2)
      × ((release o q).0.0 ≡ 1)
]

-- An activation that fails gives no object and leaves the process's count as it was. One that
-- succeeds adds one to it and gives an object that counts two references, though the caller holds
-- one: the release of the caller's reference leaves one behind, so the object is not freed.
pub hand_over-Handed : (riid : Guid) (c : Chosen) (p : Process) → Handed p (hand_over riid (c, p))
unfolding hand_over release
hand_over-Handed riid c p = ground arith
