-- ===== src/Guid.antt =====
-- GUIDs: the constants of com/types.rs and com/exe_server.rs, the conversion of com/server.rs to a
-- `u128`, and the two renderings, of a transaction in `cancel_operation` and of the class
-- identifier in com/request_sig.rs.
pub mod Texts
pub mod Number
use kee_pass_key_win.Prelude.{
  ℕ, ◌-◌, ◌*◌, ◌^◌, List, [], ◌∷◌, ◌++◌, Text, codes, ◌==◌, ◌&&◌, Bool, eq_text,
}
use kee_pass_key_win.World.{Guid}
use kee_pass_key_win.Hex.{hex_pad}
use Prim.Native.Nat.{bit_or}

abbrev pub clsid_guid : Guid
clsid_guid = record {
  data1 = 0x5c6840dc;
  data2 = 0x8bed;
  data3 = 0x4951;
  data4 = 0x95 ∷ 0x76 ∷ 0xb0 ∷ 0x45 ∷ 0x7f ∷ 0xc3 ∷ 0x4e ∷ 0x71 ∷ [];
}

abbrev pub iid_iplugin_authenticator : Guid
iid_iplugin_authenticator = record {
  data1 = 0xd26bcf6f;
  data2 = 0xb54c;
  data3 = 0x43ff;
  data4 = 0x9f ∷ 0x06 ∷ 0xd5 ∷ 0xbf ∷ 0x14 ∷ 0x86 ∷ 0x25 ∷ 0xf7 ∷ [];
}

abbrev pub iid_iunknown : Guid
iid_iunknown = record {
  data1 = 0;
  data2 = 0;
  data3 = 0;
  data4 = 0xc0 ∷ 0 ∷ 0 ∷ 0 ∷ 0 ∷ 0 ∷ 0 ∷ 0x46 ∷ [];
}

abbrev pub iid_iclass_factory : Guid
iid_iclass_factory = record {
  data1 = 1;
  data2 = 0;
  data3 = 0;
  data4 = 0xc0 ∷ 0 ∷ 0 ∷ 0 ∷ 0 ∷ 0 ∷ 0 ∷ 0x46 ∷ [];
}

unfoldable pub eq_guid : Guid → Guid → Bool
eq_guid g k =
    (g.data1 == k.data1) && (g.data2 == k.data2) && (g.data3 == k.data3) && eq_text g.data4 k.data4

-- The bytes of `data4` at falling shifts, joined by `|`.
unfoldable pub or_bytes : ℕ → List ℕ → ℕ → ℕ
or_bytes acc [] shift = acc
or_bytes acc (b ∷ bs) shift = or_bytes (bit_or acc (b * 2 ^ shift)) bs (shift - 8)

-- `From<Guid> for windows::core::GUID`
unfoldable pub to_u128 : Guid → ℕ
unfolding or_bytes
to_u128 g =
    or_bytes (bit_or (bit_or (g.data1 * 2 ^ 96) (g.data2 * 2 ^ 80)) (g.data3 * 2 ^ 64)) g.data4 56

-- The bytes of `data4` in hexadecimal, with a dash after the second.
hex_bytes : ℕ → List ℕ → Text
hex_bytes a [] = []
hex_bytes a (b ∷ bs) = hex_pad a 2 b ++ hex_bytes a bs

data4_text : ℕ → List ℕ → Text
unfolding hex_bytes
data4_text a (b0 ∷ b1 ∷ bs) = hex_pad a 2 b0 ++ (hex_pad a 2 b1 ++ (codes "-" ++ hex_bytes a bs))
data4_text a bs = hex_bytes a bs

unfoldable pub guid_text : ℕ → Guid → Text
unfolding data4_text hex_pad
guid_text a g =
    let third = hex_pad a 4 g.data3 ++ (codes "-" ++ data4_text a g.data4) in
    let second = hex_pad a 4 g.data2 ++ (codes "-" ++ third) in
    hex_pad a 8 g.data1 ++ (codes "-" ++ second)

-- The `txn` of `cancel_operation`, in small letters.
unfoldable pub transaction_text : Guid → Text
unfolding guid_text
transaction_text = guid_text 97

-- The class identifier that the PWSTR entrypoint takes: capital letters in braces.
unfoldable pub clsid_text : Guid → Text
unfolding guid_text
clsid_text g = codes "{" ++ guid_text 65 g ++ codes "}"
