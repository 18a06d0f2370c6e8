-- ===== src/CommandLine/Arguments.antt =====
-- What src/KeePassKeyWin.Provider/src/main.rs makes of its arguments: `parse_subcommand`, `flag`, and
-- `u32::from_str` for the session.
use kee_pass_key_win.Prelude.{
  ℕ, ◌+◌, ◌-◌, ◌*◌, ◌^◌, ◌&&◌, Option, none, some, List, [], ◌∷◌, Text, codes, eq_text, leb, ltb,
  ◌==◌, if◌then◌else◌,
}

pub data Subcommand : Type 0 where
  plugin_activated register unregister smoke make_credential unknown : Subcommand

unfoldable pub parse_subcommand : Text → Subcommand
parse_subcommand s =
    if eq_text s (codes "-PluginActivated")
    then plugin_activated
    else if eq_text s (codes "register")
    then register
    else if eq_text s (codes "unregister")
    then unregister
    else if eq_text s (codes "smoke")
    then smoke
    else if eq_text s (codes "make-credential")
    then make_credential
    else unknown

-- The argument after the first one that is `name` and has one after it.
unfoldable pub flag : List Text → Text → Option Text
flag [] name = none
flag (a ∷ []) name = none
flag (a ∷ v ∷ rest) name =
    let later = flag (v ∷ rest) name in if eq_text a name then some v else later

-- The digits of a `u32`, from the value read so far.
unfoldable pub parse_digits : ℕ → Text → Option ℕ
parse_digits n [] = some n
parse_digits n (c ∷ cs) =
    let next : ℕ = n * 10 + (c - 48) in
    let rest = parse_digits next cs in
    if leb 48 c && leb c 57 && ltb next (2 ^ 32) then rest else none

-- `str::parse::<u32>`, which takes a plus sign before the digits.
unfoldable pub parse_u32 : Text → Option ℕ
unfolding parse_digits
parse_u32 [] = none
parse_u32 (c ∷ []) = parse_digits 0 (c ∷ [])
parse_u32 (c ∷ d ∷ cs) = if c == 43 then parse_digits 0 (d ∷ cs) else parse_digits 0 (c ∷ d ∷ cs)

-- `.and_then(|s| s.parse().ok()).unwrap_or(1)`
abbrev pub session_or_one : Option Text → ℕ
session_or_one none = 1
session_or_one (some s) = elim (parse_u32 s) [ none ↦ 1 | some n ↦ n ]
