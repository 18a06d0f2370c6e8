-- ===== src/Prelude/Trimming.antt =====
-- `trim` takes off what it can at once, and keeps to the characters that are there.
use Prim.Native.Nat.{ℕ, ◌≤◌}
use mathlib.Core.Path.{◌≡◌, refl, sym, ap, ◌∙◌, subst}
use mathlib.Core.List.{[], ◌∷◌, ◌++◌, reverse, reverse-append, reverse-reverse, reverse-cons}
use mathlib.Core.Logic.{◌≢◌, inl, inr}
use native.Mathlib.Omega.{arith}
use kee_pass_key_win.Prelude.Tests.{Bool-cases, if◌then◌else◌}
use kee_pass_key_win.Prelude.Lists.{length}
use kee_pass_key_win.Prelude.Strings.{Text, is_whitespace, trim, trim_start}

-- What `trim_start` drops.
abbrev lead : Text → Text
lead [] = []
lead (c ∷ cs) = let rest = lead cs in if is_whitespace c then c ∷ rest else []

lead-append : (s : Text) → lead s ++ trim_start s ≡ s
unfolding trim_start
lead-append [] = refl
lead-append (c ∷ cs) = elim (Bool-cases (is_whitespace c)) [
  | inl e ↦ rw (e, lead-append cs)
  | inr e ↦ rw e
]

trim_start-le : (s : Text) → length (trim_start s) ≤ length s
unfolding trim_start
trim_start-le [] = omega arith
trim_start-le (c ∷ cs) = elim (Bool-cases (is_whitespace c)) [
  | inl e ↦ rw e (omega (arith, trim_start-le cs))
  | inr e ↦ rw e (omega arith)
]

trim_start_idem : (s : Text) → trim_start (trim_start s) ≡ trim_start s
unfolding trim_start
trim_start_idem [] = refl
trim_start_idem (c ∷ cs) = elim (Bool-cases (is_whitespace c)) [
  | inl e ↦ rw (e, trim_start_idem cs)
  | inr e ↦ rw (e, e)
]

trim_start-prefix : (v z : Text) → trim_start (v ++ z) ≡ v ++ z → trim_start v ≡ v
unfolding trim_start
trim_start-prefix [] z h = refl
trim_start-prefix (c ∷ cs) z h = elim (Bool-cases (is_whitespace c)) [
  | inl e ↦
      let shorter : trim_start (cs ++ z) ≡ c ∷ cs ++ z = ground (arith, e, h) in
      absurd (omega (arith, trim_start-le (cs ++ z), ap length shorter))
  | inr e ↦ rw e
]

-- A trimmed text is left as it is.
pub trim_idem : (s : Text) → trim (trim s) ≡ trim s
unfolding trim
trim_idem s =
    let u = trim_start s in
    let w = reverse u in
    let t = trim_start w in
    let z = reverse (lead w) in
    let split : reverse t ++ z ≡ u =
      sym (reverse-append (lead w) t) ∙ ap reverse (lead-append w) ∙ reverse-reverse u in
    let front : trim_start (reverse t) ≡ reverse t =
      trim_start-prefix (reverse t) z
        (subst (λ a. trim_start a ≡ a) (sym split) (trim_start_idem s)) in
    ap (λ a. reverse (trim_start (reverse a))) front
    ∙ ap (λ a. reverse (trim_start a)) (reverse-reverse t)
    ∙ ap reverse (trim_start_idem w)

-- A text without a given character.
abbrev pub Avoids : ℕ → Text → Type 0
Avoids c [] = Unit
Avoids c (d ∷ ds) = (d ≢ c) × Avoids c ds

Avoids-append : (c : ℕ) (s t : Text) → Avoids c s → Avoids c t → Avoids c (s ++ t)
Avoids-append c [] t h k = k
Avoids-append c (d ∷ ds) t h k = (h.0, Avoids-append c ds t h.1 k)

Avoids-reverse : (c : ℕ) (s : Text) → Avoids c s → Avoids c (reverse s)
Avoids-reverse c [] h = tt
Avoids-reverse c (d ∷ ds) h =
    subst (Avoids c) (sym (reverse-cons d ds))
      (Avoids-append c (reverse ds) (d ∷ []) (Avoids-reverse c ds h.1) (h.0, tt))

Avoids-trim_start : (c : ℕ) (s : Text) → Avoids c s → Avoids c (trim_start s)
unfolding trim_start
Avoids-trim_start c [] h = tt
Avoids-trim_start c (d ∷ ds) h = elim (Bool-cases (is_whitespace d)) [
  | inl e ↦ rw e (Avoids-trim_start c ds h.1)
  | inr e ↦ rw e h
]

pub Avoids-trim : (c : ℕ) (s : Text) → Avoids c s → Avoids c (trim s)
unfolding trim
Avoids-trim c s h =
    Avoids-reverse c _ (Avoids-trim_start c _ (Avoids-reverse c _ (Avoids-trim_start c s h)))
