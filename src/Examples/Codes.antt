-- ===== src/Examples/Codes.antt =====
-- Runs on the texts and numbers of identifiers.
use kee_pass_key_win.Guid.Texts.{IsGuid, transaction_text-injective}
use kee_pass_key_win.Guid.{to_u128}
use kee_pass_key_win.Guid.Number.{be_bytes, to_u128-fields}
use kee_pass_key_win.Prelude.{◌/◌, ◌%◌, ◌^◌, ◌<◌}
use kee_pass_key_win.World.{Guid}
use kee_pass_key_win.Prelude.{refl}
use kee_pass_key_win.Prelude.{◌≡◌, [], ◌∷◌, arith}

abbrev a_transaction : Guid
a_transaction = record {
  data1 = 5;
  data2 = 6;
  data3 = 7;
  data4 = 0 ∷ 1 ∷ 2 ∷ 3 ∷ 4 ∷ 5 ∷ 6 ∷ 255 ∷ [];
}

a_transaction-IsGuid : IsGuid a_transaction
a_transaction-IsGuid = ground arith

transaction_example : a_transaction ≡ a_transaction
transaction_example =
    transaction_text-injective a_transaction a_transaction a_transaction-IsGuid a_transaction-IsGuid
      refl

number_example :
    (to_u128 a_transaction < 2 ^ 128)
    × (to_u128 a_transaction / 2 ^ 96 ≡ 5)
    × (to_u128 a_transaction / 2 ^ 80 % 2 ^ 16 ≡ 6)
    × (to_u128 a_transaction / 2 ^ 64 % 2 ^ 16 ≡ 7)
    × (be_bytes 8 (to_u128 a_transaction) ≡ 0 ∷ 1 ∷ 2 ∷ 3 ∷ 4 ∷ 5 ∷ 6 ∷ 255 ∷ [])
number_example = to_u128-fields a_transaction a_transaction-IsGuid
