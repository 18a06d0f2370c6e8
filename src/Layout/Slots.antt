-- ===== src/Layout/Slots.antt =====
-- A struct of pointers, and of counters that stand before a pointer, has each field in a slot of the size
-- of a pointer, on x64 and on x86.
use kee_pass_key_win.Prelude.{
  ℕ, zero, suc, ◌+◌, ◌-◌, ◌*◌, ◌/◌, ◌≤◌, ◌≡◌, ◌∙◌, ap, ap₂, refl, arith, List, [], ◌∷◌, length,
  quotient,
}
use kee_pass_key_win.Layout.{
  FieldKind, dword, pointer, inline_guid, Shape, align_up, offsets, end_of, widest, struct_shape,
  shape_of, shapes, operation_response, add_authenticator_options, add_authenticator_response,
  user_verification_request, user_verification_request2, credential_details,
}

-- Each counter stands right before a pointer.
abbrev pub Slotted : List FieldKind → Type 0
Slotted [] = Unit
Slotted (pointer ∷ fs) = Slotted fs
Slotted (dword ∷ pointer ∷ fs) = Slotted fs
Slotted _ = ⊥

-- The places of the counters, the first field being at `i`.
abbrev pub counters : ℕ → List FieldKind → List ℕ
counters i [] = []
counters i (dword ∷ fs) = i ∷ counters (suc i) fs
counters i (_ ∷ fs) = counters (suc i) fs

-- `n` places, `w` bytes apart.
abbrev pub slots : ℕ → ℕ → ℕ → List ℕ
slots w i zero = []
slots w i (suc n) = i * w ∷ slots w (suc i) n

-- Pointers of `4 * suc k` bytes.
module _ (k : ℕ) where
  abbrev w : ℕ
  w = 4 * suc k

  align_up-slot : (i : ℕ) → align_up (i * w) w ≡ i * w
  unfolding align_up
  align_up-slot i = ap (λ (q : ℕ). q * w) (quotient i (w - 1) w (omega arith))

  align_up-dword : (i : ℕ) → align_up (i * w) 4 ≡ i * w
  unfolding align_up
  align_up-dword i = let four : i * w ≡ 4 * (i * suc k) = omega arith in omega (arith, four)

  -- After a counter, the pointer stands in the next slot.
  align_up-next : (i : ℕ) → align_up (i * w + 4) w ≡ suc i * w
  unfolding align_up
  align_up-next i =
      let front : i * w + 4 + (w - 1) ≡ suc i * w + 3 = omega arith in
      ap (λ (n : ℕ). n / w * w) front ∙ ap (λ (q : ℕ). q * w) (quotient (suc i) 3 w (omega arith))

  offsets-slots :
      (i : ℕ) (fs : List FieldKind)
      → Slotted fs
      → (offsets (i * w) (shapes w fs) ≡ slots w i (length fs))
        × (end_of (i * w) (shapes w fs) ≡ (i + length fs) * w)
  unfolding offsets end_of shapes shape_of
  offsets-slots i [] h = (refl, ap (λ (n : ℕ). n * w) (omega arith))
  offsets-slots i (pointer ∷ fs) h =
      let (rest, end) = offsets-slots (suc i) fs h in
      let at = align_up-slot i in
      let after : i * w + w ≡ suc i * w = omega arith in
      let count : suc i + length fs ≡ i + suc (length fs) = omega arith in
      (
        rw at (ap₂ (λ n (ns : List ℕ). n ∷ ns) refl (rw after rest)),
        ap (λ (n : ℕ). end_of (n + w) (shapes w fs)) at
            ∙ ap (λ (n : ℕ). end_of n (shapes w fs)) after
            ∙ end
            ∙ ap (λ (n : ℕ). n * w) count,
      )
  offsets-slots i (dword ∷ pointer ∷ fs) h =
      let (rest, end) = offsets-slots (suc (suc i)) fs h in
      let at = align_up-dword i in
      let next = align_up-next i in
      let after : suc i * w + w ≡ suc (suc i) * w = omega arith in
      let count : suc (suc i) + length fs ≡ i + suc (suc (length fs)) = omega arith in
      (
        rw (at, next)
            (ap₂ (λ n (ns : List ℕ). n ∷ ns) refl
              (ap₂ (λ n (ns : List ℕ). n ∷ ns) refl (rw after rest))),
        ap (λ (n : ℕ). end_of (align_up (n + 4) w + w) (shapes w fs)) at
            ∙ ap (λ (n : ℕ). end_of (n + w) (shapes w fs)) next
            ∙ ap (λ (n : ℕ). end_of n (shapes w fs)) after
            ∙ end
            ∙ ap (λ (n : ℕ). n * w) count,
      )
  offsets-slots i (dword ∷ dword ∷ fs) h = absurd h
  offsets-slots i (dword ∷ inline_guid ∷ fs) h = absurd h
  offsets-slots i (dword ∷ []) h = absurd h
  offsets-slots i (inline_guid ∷ fs) h = absurd h

  widest-slots : (fs : List FieldKind) → Slotted fs → widest (shapes w fs) ≤ w
  unfolding shapes shape_of
  widest-slots [] h = omega arith
  widest-slots (pointer ∷ fs) h = omega (arith, widest-slots fs h)
  widest-slots (dword ∷ pointer ∷ fs) h = omega (arith, widest-slots fs h)
  widest-slots (dword ∷ dword ∷ fs) h = absurd h
  widest-slots (dword ∷ inline_guid ∷ fs) h = absurd h
  widest-slots (dword ∷ []) h = absurd h
  widest-slots (inline_guid ∷ fs) h = absurd h

  -- The widest of the fields is a pointer, if there is one.
  widest-pointer :
      (f : FieldKind) (fs : List FieldKind) → Slotted (f ∷ fs) → widest (shapes w (f ∷ fs)) ≡ w
  unfolding shapes shape_of
  widest-pointer pointer fs h = omega (arith, widest-slots fs h)
  widest-pointer dword (pointer ∷ fs) h = omega (arith, widest-slots fs h)
  widest-pointer dword (dword ∷ fs) h = absurd h
  widest-pointer dword (inline_guid ∷ fs) h = absurd h
  widest-pointer dword [] h = absurd h
  widest-pointer inline_guid fs h = absurd h

  -- `n` fields, each in its slot, with nothing after the last; those at `places` are counters and the
  -- others pointers.
  abbrev pub InSlots : ℕ → List ℕ → List FieldKind → Type 0
  InSlots n places fs =
      (offsets 0 (shapes w fs) ≡ slots w 0 n)
      × (struct_shape (shapes w fs) ≡ record { size = n * w; align = w })
      × (counters 0 fs ≡ places)

  Slotted-InSlots :
      (f : FieldKind) (fs : List FieldKind)
      → Slotted (f ∷ fs)
      → InSlots (length (f ∷ fs)) (counters 0 (f ∷ fs)) (f ∷ fs)
  unfolding struct_shape
  Slotted-InSlots f fs h =
      let (places, end) = offsets-slots 0 (f ∷ fs) h in
      let zero_at : 0 ≡ 0 * w = omega arith in
      let round = align_up-slot (0 + length (f ∷ fs)) in
      let zero_more : 0 + length (f ∷ fs) ≡ length (f ∷ fs) = omega arith in
      let rounded : align_up (end_of 0 (shapes w (f ∷ fs))) w ≡ length (f ∷ fs) * w =
        ap (λ (n : ℕ). align_up (end_of n (shapes w (f ∷ fs))) w) zero_at
        ∙ ap (λ (n : ℕ). align_up n w) end
        ∙ round
        ∙ ap (λ (n : ℕ). n * w) zero_more in
      (
        ap (λ (n : ℕ). offsets n (shapes w (f ∷ fs))) zero_at ∙ places,
        ap
              (λ (a : ℕ).
                let s : Shape = record {
                  size = align_up (end_of 0 (shapes w (f ∷ fs))) a;
                  align = a;
                } in
                s)
              (widest-pointer f fs h)
            ∙ ap (λ (n : ℕ). let s : Shape = record { size = n; align = w } in s) rounded,
        refl,
      )

  -- For pointers of any multiple of four bytes, in the structs that hold no GUID themselves each field
  -- begins at the multiple of the size of a pointer that is its place among the fields, and the struct
  -- ends one pointer after the last begins. The options are nine fields, of which those at 5 and 7 are
  -- counters; the answer to them two, the first a counter; a verification's request four and none, or
  -- six and the one at 4; a credential eight and those at 0 and 4; a response two and the first.
  pub structs-InSlots :
      InSlots 9 (5 ∷ 7 ∷ []) add_authenticator_options
      × InSlots 2 (0 ∷ []) add_authenticator_response
      × InSlots 4 [] user_verification_request
      × InSlots 6 (4 ∷ []) user_verification_request2
      × InSlots 8 (0 ∷ 4 ∷ []) credential_details
      × InSlots 2 (0 ∷ []) operation_response
  structs-InSlots = (
    Slotted-InSlots _ _ tt,
    Slotted-InSlots _ _ tt,
    Slotted-InSlots _ _ tt,
    Slotted-InSlots _ _ tt,
    Slotted-InSlots _ _ tt,
    Slotted-InSlots _ _ tt,
  )
