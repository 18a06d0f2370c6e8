-- ===== src/CommandLine/Flags.antt =====
-- What `flag` of src/KeePassKeyWin.Provider/src/main.rs finds, and the bounds of the session number.
use kee_pass_key_win.Prelude.{Option, none, some}
use kee_pass_key_win.Prelude.{
  ℕ, ◌^◌, ◌<◌, ◌↔◌, true, ◌&&◌, ◌+◌, ◌*◌, ◌-◌, leb, ltb, some, List, [], ◌∷◌, ◌++◌, Text, ◌≡◌, ◌≢◌,
  ap, arith, ◌∙◌, subst, eq_text, eq_text_refl, eq_text_eq, ◌==◌, Bool-cases, Option-cases, inl,
  inr,
}
use kee_pass_key_win.CommandLine.Arguments.{flag, parse_digits, parse_u32, session_or_one}

abbrev pub Absent : Text → List Text → Type 0
Absent name [] = Unit
Absent name (a ∷ rest) = (a ≢ name) × Absent name rest

abbrev pub Found : List Text → Text → Text → Type 0
Found args name v =
    (before : List Text) × (after : List Text) × (args ≡ before ++ name ∷ v ∷ after)
    × Absent name before

flag-Found : (args : List Text) (name v : Text) → flag args name ≡ some v → Found args name v
unfolding flag
flag-Found [] name v h = ground arith
flag-Found (a ∷ []) name v h = ground arith
flag-Found (a ∷ w ∷ rest) name v h = elim (Bool-cases (eq_text a name)) [
  | inl e ↦ ([], rest, ground (arith, h, e, eq_text_eq a name e), tt)
  | inr e ↦
      let (before, after, same, absent) = flag-Found (w ∷ rest) name v (ground (arith, h, e)) in
      let differs : a ≢ name =
        λ f. ground (arith, e, subst (λ n. eq_text a n ≡ true) f (eq_text_refl a)) in
      (a ∷ before, after, ap (λ (r : List Text). a ∷ r) same, (differs, absent))
]

-- Going past an argument that is another.
flag-cons :
    (a w : Text) (rest : List Text) (name : Text)
    → a ≢ name
    → flag (a ∷ w ∷ rest) name ≡ flag (w ∷ rest) name
unfolding flag
flag-cons a w rest name h = elim (Bool-cases (eq_text a name)) [
  | inl e ↦ absurd (h (eq_text_eq a name e))
  | inr e ↦ rw e
]

Found-flag :
    (before after : List Text) (name v : Text)
    → Absent name before
    → flag (before ++ name ∷ v ∷ after) name ≡ some v
unfolding flag
Found-flag [] after name v h = rw (eq_text_refl name)
Found-flag (a ∷ []) after name v h =
    flag-cons a name (v ∷ after) name h.0 ∙ Found-flag [] after name v tt
Found-flag (a ∷ b ∷ before) after name v h =
    flag-cons a b (before ++ name ∷ v ∷ after) name h.0 ∙ Found-flag (b ∷ before) after name v h.1

-- A flag has a value exactly if it stands among the arguments with one after it, and then its value is
-- the argument after the first place where it stands, whatever that argument is.
pub flag_iff : (args : List Text) (name v : Text) → (flag args name ≡ some v) ↔ Found args name v
flag_iff args name v = (
  flag-Found args name v,
  λ f.
      let (before, after, same, absent) = f in
      ap (λ args. flag args name) same ∙ Found-flag before after name v absent,
)

-- The session is a `u32`, whatever was typed.
parse_digits-lt : (n : ℕ) (t : Text) (m : ℕ) → n < 2 ^ 32 → parse_digits n t ≡ some m → m < 2 ^ 32
unfolding parse_digits
parse_digits-lt n [] m b h = ground arith
parse_digits-lt n (c ∷ cs) m b h =
    let next : ℕ = n * 10 + (c - 48) in
    elim (Bool-cases (leb 48 c && leb c 57 && ltb next (2 ^ 32))) [
      | inl e ↦ parse_digits-lt next cs m (ground (arith, e)) (ground (arith, e, h))
      | inr e ↦ ground (arith, e, h)
    ]

parse_u32-lt : (t : Text) (n : ℕ) → parse_u32 t ≡ some n → n < 2 ^ 32
unfolding parse_u32
parse_u32-lt [] n h = ground arith
parse_u32-lt (c ∷ []) n h = parse_digits-lt 0 (c ∷ []) n (omega arith) h
parse_u32-lt (c ∷ d ∷ cs) n h = elim (Bool-cases (c == 43)) [
  | inl e ↦ parse_digits-lt 0 (d ∷ cs) n (omega arith) (ground (arith, e, h))
  | inr e ↦ parse_digits-lt 0 (c ∷ d ∷ cs) n (omega arith) (ground (arith, e, h))
]

-- Whatever is typed, the session is a `u32`.
pub session_or_one-lt : (o : Option Text) → session_or_one o < 2 ^ 32
session_or_one-lt none = omega arith
session_or_one-lt (some t) = elim (Option-cases (parse_u32 t)) [
  | inl e ↦ rw (e, session_or_one) (omega arith)
  | inr (n, e) ↦ rw (e, session_or_one) (parse_u32-lt t n e)
]
