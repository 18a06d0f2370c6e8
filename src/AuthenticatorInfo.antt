-- ===== src/AuthenticatorInfo.antt =====
-- src/KeePassKeyWin.Provider/src/com/authenticator_info.rs: what the authenticator says of itself when
-- it is registered. ciborium, which writes the tree as bytes, is a parameter.
use kee_pass_key_win.Prelude.{ℕ, ℤ, pos, minus, true, List, [], ◌∷◌, String, codes}
use kee_pass_key_win.Cbor.{
  Value, integer, bytes, text, boolean, array, map, nil, cons, empty, entry,
}

abbrev pub keepasskeywin_aaguid : List ℕ
keepasskeywin_aaguid =
    0xa9 ∷ 0x7d ∷ 0x1e ∷ 0x2b ∷ 0x4c ∷ 0x8f ∷ 0x4a ∷ 0x3e ∷ 0x9b ∷ 0xd6 ∷ 0x5f ∷ 0x82 ∷ 0xc1 ∷ 0x47
    ∷ 0x6e ∷ 0x3d ∷ []

abbrev string : String → Value
string s = text (codes s)

abbrev versions : Value
versions = array (cons (string "FIDO_2_0") (cons (string "FIDO_2_1") nil))

abbrev options : Value
options = map (
    entry (string "rk") (boolean true)
      (entry (string "up") (boolean true) (entry (string "uv") (boolean true) empty)))

abbrev transports : Value
transports = array (cons (string "internal") nil)

abbrev algorithm : ℤ → Value
algorithm alg =
    map (entry (string "alg") (integer alg) (entry (string "type") (string "public-key") empty))

abbrev algorithms : Value
algorithms = array (cons (algorithm (minus 7)) (cons (algorithm (minus 257)) nil))

abbrev pub info : Value
info = map (
    entry (integer (pos 1)) versions (
      entry (integer (pos 3)) (bytes keepasskeywin_aaguid) (
        entry (integer (pos 4)) options
          (entry (integer (pos 9)) transports (entry (integer (pos 10)) algorithms empty)))))

unfoldable pub authenticator_get_info_cbor : (Value → List ℕ) → List ℕ
authenticator_get_info_cbor into_writer = into_writer info
