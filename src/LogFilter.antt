-- ===== src/LogFilter.antt =====
-- src/KeePassKeyWin.Provider/src/log_filter.rs: the partition of a comma-separated list of log
-- directives. Whether a part is a directive is decided by the crate tracing-subscriber, which is the
-- parameter `check`: `none` if the part parses, and the error's text otherwise; `debug` is `{:?}` of a text.
pub mod Stability
use kee_pass_key_win.Prelude.{
  Option, none, some, List, [], ◌∷◌, ◌++◌, Text, codes, trim, is_empty, ◌==◌, if◌then◌else◌,
}

pub record LogFilterParse : Type 0 where
  pub good_directives : Text
  pub warnings : List Text

-- A text put before the first part.
abbrev onto : Text → List Text → List Text
onto c [] = c ∷ []
onto c (part ∷ parts) = (c ++ part) ∷ parts

-- `raw.split(',')`
unfoldable pub split_commas : Text → List Text
split_commas [] = [] ∷ []
split_commas (c ∷ cs) =
    let rest = split_commas cs in if c == 44 then [] ∷ rest else onto (c ∷ []) rest

-- `.map(str::trim).filter(|s| !s.is_empty())`
unfoldable pub trimmed_parts : List Text → List Text
trimmed_parts [] = []
trimmed_parts (part ∷ parts) =
    let rest = trimmed_parts parts in if is_empty (trim part) then rest else trim part ∷ rest

-- `good.join(",")`
unfoldable pub join_commas : List Text → Text
join_commas [] = []
join_commas (part ∷ []) = part
join_commas (part ∷ next ∷ parts) = part ++ 44 ∷ join_commas (next ∷ parts)

module _ (check : Text → Option Text) (debug : Text → Text) where
  unfoldable pub good_parts : List Text → List Text
  good_parts [] = []
  good_parts (part ∷ parts) = elim (check part) [
    | none ↦ part ∷ good_parts parts
    | some e ↦ good_parts parts
  ]

  unfoldable pub warning : Text → Text → Text → Text
  warning env_var_name part e =
      env_var_name ++ codes ": rejected directive " ++ debug part ++ codes ": " ++ e

  unfoldable pub warnings_of : Text → List Text → List Text
  unfolding warning
  warnings_of env_var_name [] = []
  warnings_of env_var_name (part ∷ parts) = elim (check part) [
    | none ↦ warnings_of env_var_name parts
    | some e ↦ warning env_var_name part e ∷ warnings_of env_var_name parts
  ]

  -- The loop fills both lists at once; here each is read off the parts on its own.
  unfoldable pub parse : Text → Text → LogFilterParse
  unfolding trimmed_parts split_commas join_commas good_parts warnings_of
  parse raw env_var_name =
      let parts = trimmed_parts (split_commas raw) in
      record {
        good_directives = join_commas (good_parts parts);
        warnings = warnings_of env_var_name parts;
      }
