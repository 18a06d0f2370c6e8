-- ===== src/Registry.antt =====
-- Reading the handshake nonce: src/KeePassKeyWin.Provider/src/com/reg_read_error.rs, and
-- `read_handshake_nonce` of com/exe_server.rs with the messages of `connect_and_handshake`.
pub mod Outcomes
use kee_pass_key_win.Prelude.{
  ℕ, ◌/◌, ℤ, pos, eq_ℤ, as_i32, as_u32, Bool, ◌||◌, Option, none, some, List, [], ◌∷◌, ◌++◌, Text,
  codes, Result, ok, err, take, ◌==◌, if◌then◌else◌,
}
use kee_pass_key_win.World.{Externals, RegReply, Process, nonce_read, emit}
use kee_pass_key_win.Hex.{hex_pad, hex_u32}
use kee_pass_key_win.Utf16.{from_utf16}

pub data RegReadError : Type 0 where
  not_found : RegReadError
  wrong_type : ℕ → RegReadError
  access_denied buffer_too_small malformed_string : RegReadError
  other : ℤ → RegReadError

unfoldable pub lstatus_to_reg_read_error : ℤ → RegReadError
lstatus_to_reg_read_error status =
    if eq_ℤ status (pos 2) || eq_ℤ status (pos 3)
    then not_found
    else if eq_ℤ status (pos 5)
    then access_denied
    else if eq_ℤ status (pos 234)
    then buffer_too_small
    else other status

abbrev pub reg_sz : ℕ
reg_sz = 1

-- `buf[..end]`, where `end` is the position of the first 0
unfoldable pub until_nul : List ℕ → List ℕ
until_nul [] = []
until_nul (u ∷ us) = let rest = u ∷ until_nul us in if u == 0 then [] else rest

abbrev or_malformed : Option Text → Result RegReadError Text
or_malformed none = err malformed_string
or_malformed (some t) = ok t

-- What the program makes of the answer of RegGetValueW. The buffer holds 256 code units, of which
-- `cb / 2` are looked at; `take` stands for the slice `buf[..wchars]`, which is in range as long as
-- RegGetValueW reports no more bytes than the 512 that it was given.
unfoldable pub read_reply : RegReply → Result RegReadError Text
unfolding lstatus_to_reg_read_error until_nul
read_reply r =
    if r.status == 0
    then if r.value_type == reg_sz
      then or_malformed (from_utf16 (until_nul (take (r.cb / 2) r.buf)))
      else err (wrong_type r.value_type)
    else err (lstatus_to_reg_read_error (as_i32 r.status))

unfoldable pub read_handshake_nonce :
    {V : Type 0} → Externals V → Process → Result RegReadError Text × Process
read_handshake_nonce x p = (read_reply (x.reg_get_value p.history), emit nonce_read p)

abbrev value_name : Text
value_name = codes "HKCU\\Software\\KeePassKeyWin\\HandshakeNonce "

-- The message of `connect_and_handshake` for each failure.
unfoldable pub reason : RegReadError → Text
reason not_found = value_name ++ codes "not found"
reason (wrong_type actual_type) =
    value_name
    ++ codes "wrong value type 0x"
    ++ hex_u32 actual_type
    ++ codes " (expected REG_SZ 0x1)"
reason access_denied = value_name ++ codes "access denied"
reason buffer_too_small = value_name ++ codes "buffer too small"
reason malformed_string = value_name ++ codes "contains invalid UTF-16 data"
reason (other c) = value_name ++ codes "LSTATUS 0x" ++ hex_pad 97 8 (as_u32 c)
