-- ===== src/Ctap.antt =====
-- src/KeePassKeyWin.Provider/src/ctap/mod.rs: the parameters and results of the plugin's calls that
-- the command line makes. The names that serde gives their fields belong to the functions that print
-- and parse them.
use kee_pass_key_win.Prelude.{ℕ, ◌+◌, ◌/◌, ◌%◌, Bool, List, [], ◌∷◌, ◌++◌, Text, ltb, if◌then◌else◌}

pub record CreatePasskeyParams : Type 0 where
  pub rp_id : Text
  pub rp_name : Text
  pub user_handle : Text
  pub user_name : Text
  pub user_display_name : Text

pub record CreatePasskeyResult : Type 0 where
  pub credential_id : Text
  pub public_key_cose : Text
  pub auth_data : Text

pub record SignAssertionParams : Type 0 where
  pub credential_id : Text
  pub auth_data : Text
  pub client_data_hash : Text

pub record SignAssertionResult : Type 0 where
  pub signature : Text

pub record ListCredentialsParams : Type 0 where
  pub rp_id : Text

pub record CredentialInfo : Type 0 where
  pub credential_id : Text
  pub user_name : Text
  pub rp_id : Text

pub record DeleteCredentialParams : Type 0 where
  pub credential_id : Text

pub record DeleteCredentialResult : Type 0 where
  pub deleted : Bool

-- `str::as_bytes`: the UTF-8 encoding.
abbrev encode_char : ℕ → List ℕ
encode_char c =
    if ltb c 0x80
    then c ∷ []
    else if ltb c 0x800
    then (0xc0 + c / 0x40) ∷ (0x80 + c % 0x40) ∷ []
    else if ltb c 0x10000
    then (0xe0 + c / 0x1000) ∷ (0x80 + c / 0x40 % 0x40) ∷ (0x80 + c % 0x40) ∷ []
    else (0xf0 + c / 0x40000)
      ∷ (0x80 + c / 0x1000 % 0x40)
      ∷ (0x80 + c / 0x40 % 0x40)
      ∷ (0x80 + c % 0x40)
      ∷ []

unfoldable pub as_bytes : Text → List ℕ
as_bytes [] = []
as_bytes (c ∷ cs) = encode_char c ++ as_bytes cs

-- `rp_id_hash`, with SHA-256 as a parameter.
unfoldable pub rp_id_hash : (List ℕ → List ℕ) → Text → List ℕ
unfolding as_bytes
rp_id_hash sha256 rp_id = sha256 (as_bytes rp_id)
