-- ===== src/Cbor.antt =====
-- `ciborium::Value`, with the constructors that src/KeePassKeyWin.Provider/src/com/authenticator_info.rs
-- uses.
use kee_pass_key_win.Prelude.{ℕ, ℤ, Bool, List, Text}

mutual
  pub data Value : Type 0 where
    integer : ℤ → Value
    bytes : List ℕ → Value
    text : Text → Value
    boolean : Bool → Value
    array : Values → Value
    map : Entries → Value

  pub data Values : Type 0 where
    nil : Values
    cons : Value → Values → Values

  pub data Entries : Type 0 where
    empty : Entries
    entry : Value → Value → Entries → Entries
