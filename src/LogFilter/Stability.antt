-- ===== src/LogFilter/Stability.antt =====
-- The accepted directives parse again, without a warning, into themselves.
use kee_pass_key_win.Prelude.{
  ℕ, false, Option, none, some, List, [], ◌∷◌, ◌++◌, Text, ◌≡◌, ◌≢◌, ◌∙◌, refl, sym, ap, subst,
  arith, trim, trim_start, trim_idem, Avoids, Avoids-trim, is_empty, Bool-cases, Option-cases, inl,
  inr, ◌==◌,
}
use kee_pass_key_win.LogFilter.{
  split_commas, trimmed_parts, join_commas, good_parts, warnings_of, parse, onto,
}

-- A part as `parse` validates it.
record IsPart (t : Text) : Type 0 where
  avoids : Avoids 44 t
  filled : is_empty t ≡ false
  trimmed : trim t ≡ t

abbrev AllAvoid : List Text → Type 0
AllAvoid [] = Unit
AllAvoid (t ∷ ts) = Avoids 44 t × AllAvoid ts

abbrev AllParts : List Text → Type 0
AllParts [] = Unit
AllParts (t ∷ ts) = IsPart t × AllParts ts

differs : (c d : ℕ) → (c == d) ≡ false → c ≢ d
differs c d h = ground arith

same_not : (c d : ℕ) → c ≢ d → (c == d) ≡ false
same_not c d h = ground arith

onto-AllAvoid : (c : ℕ) (ts : List Text) → c ≢ 44 → AllAvoid ts → AllAvoid (onto (c ∷ []) ts)
onto-AllAvoid c [] n h = ((n, tt), tt)
onto-AllAvoid c (t ∷ ts) n h = ((n, h.0), h.1)

split_commas-AllAvoid : (s : Text) → AllAvoid (split_commas s)
unfolding split_commas
split_commas-AllAvoid [] = (tt, tt)
split_commas-AllAvoid (c ∷ cs) = elim (Bool-cases (c == 44)) [
  | inl e ↦ rw e (tt, split_commas-AllAvoid cs)
  | inr e ↦ rw e (onto-AllAvoid c _ (differs c 44 e) (split_commas-AllAvoid cs))
]

trimmed_parts-AllParts : (ts : List Text) → AllAvoid ts → AllParts (trimmed_parts ts)
unfolding trimmed_parts
trimmed_parts-AllParts [] h = tt
trimmed_parts-AllParts (t ∷ ts) h = elim (Bool-cases (is_empty (trim t))) [
  | inl e ↦ rw e (trimmed_parts-AllParts ts h.1)
  | inr e ↦
      let part : IsPart (trim t) = record {
        avoids = Avoids-trim 44 t h.0;
        filled = e;
        trimmed = trim_idem t;
      } in
      rw e (part, trimmed_parts-AllParts ts h.1)
]

trimmed_parts-stable : (ts : List Text) → AllParts ts → trimmed_parts ts ≡ ts
unfolding trimmed_parts
trimmed_parts-stable [] h = refl
trimmed_parts-stable (t ∷ ts) h =
    rw (h.0.trimmed, h.0.filled) (ap (λ (r : List Text). t ∷ r) (trimmed_parts-stable ts h.1))

AllParts-AllAvoid : (ts : List Text) → AllParts ts → AllAvoid ts
AllParts-AllAvoid [] h = tt
AllParts-AllAvoid (t ∷ ts) h = (h.0.avoids, AllParts-AllAvoid ts h.1)

split_commas-one : (t : Text) → Avoids 44 t → split_commas t ≡ t ∷ []
unfolding split_commas
split_commas-one [] h = refl
split_commas-one (c ∷ cs) h = rw (same_not c 44 h.0, split_commas-one cs h.1)

split_commas-append : (t w : Text) → Avoids 44 t → split_commas (t ++ 44 ∷ w) ≡ t ∷ split_commas w
unfolding split_commas
split_commas-append [] w h = refl
split_commas-append (c ∷ cs) w h = rw (same_not c 44 h.0, split_commas-append cs w h.1)

split_commas-join_commas :
    (t : Text) (ts : List Text) → AllAvoid (t ∷ ts) → split_commas (join_commas (t ∷ ts)) ≡ t ∷ ts
unfolding join_commas
split_commas-join_commas t [] h = split_commas-one t h.0
split_commas-join_commas t (u ∷ ts) h =
    split_commas-append t (join_commas (u ∷ ts)) h.0
    ∙ ap (λ (r : List Text). t ∷ r) (split_commas-join_commas u ts h.1)

-- The parts of joined parts are these.
trimmed_parts-join_commas :
    (ts : List Text) → AllParts ts → trimmed_parts (split_commas (join_commas ts)) ≡ ts
unfolding join_commas split_commas trimmed_parts trim trim_start
trimmed_parts-join_commas [] h = refl
trimmed_parts-join_commas (t ∷ ts) h =
    ap trimmed_parts (split_commas-join_commas t ts (AllParts-AllAvoid (t ∷ ts) h))
    ∙ trimmed_parts-stable (t ∷ ts) h

module _ (check : Text → Option Text) (debug : Text → Text) where
  good_parts-good :
      (t : Text) (ts : List Text)
      → check t ≡ none
      → good_parts check debug (t ∷ ts) ≡ t ∷ good_parts check debug ts
  unfolding good_parts
  good_parts-good t ts e = rw (e, good_parts)

  good_parts-bad :
      (t : Text) (ts : List Text) (m : Text)
      → check t ≡ some m
      → good_parts check debug (t ∷ ts) ≡ good_parts check debug ts
  unfolding good_parts
  good_parts-bad t ts m e = rw (e, good_parts)

  warnings_of-good :
      (name t : Text) (ts : List Text)
      → check t ≡ none
      → warnings_of check debug name (t ∷ ts) ≡ warnings_of check debug name ts
  unfolding warnings_of
  warnings_of-good name t ts e = rw (e, warnings_of)

  -- The accepted parts are parts, and are all accepted again.
  record IsAccepted (ts : List Text) : Type 0 where
    parts : AllParts ts
    kept : good_parts check debug ts ≡ ts
    silent : (name : Text) → warnings_of check debug name ts ≡ []

  IsAccepted-cons :
      (t : Text) (ts : List Text) → check t ≡ none → IsPart t → IsAccepted ts → IsAccepted (t ∷ ts)
  IsAccepted-cons t ts e h a = record {
    parts = (h, a.parts);
    kept = good_parts-good t ts e ∙ ap (λ (r : List Text). t ∷ r) a.kept;
    silent = λ name. warnings_of-good name t ts e ∙ a.silent name;
  }

  good_parts-IsAccepted : (ts : List Text) → AllParts ts → IsAccepted (good_parts check debug ts)
  unfolding good_parts warnings_of
  good_parts-IsAccepted [] h = record { parts = tt; kept = refl; silent = λ name. refl }
  good_parts-IsAccepted (t ∷ ts) h =
      let rest = good_parts-IsAccepted ts h.1 in
      elim (Option-cases (check t)) [
        | inl e ↦ subst IsAccepted (sym (good_parts-good t ts e)) (IsAccepted-cons t _ e h.0 rest)
        | inr (m, e) ↦ subst IsAccepted (sym (good_parts-bad t ts m e)) rest
      ]

  -- Whatever the directives: those that `parse` accepts, joined as it joins them, are parsed again
  -- without a warning and into the same text.
  pub parse_idem :
      (raw name : Text)
      → let good = (parse check debug raw name).good_directives in
        parse check debug good name ≡ record { good_directives = good; warnings = [] }
  unfolding parse
  parse_idem raw name =
      let ts = trimmed_parts (split_commas raw) in
      let a = good_parts-IsAccepted ts (trimmed_parts-AllParts _ (split_commas-AllAvoid raw)) in
      rw (trimmed_parts-join_commas (good_parts check debug ts) a.parts, a.kept, a.silent name)
