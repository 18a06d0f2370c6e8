-- ===== src/CommandLine/Nonce.antt =====
-- `read_nonce_from_registry` of src/KeePassKeyWin.Provider/src/main.rs.
use kee_pass_key_win.Prelude.{◌-◌, ◌/◌, Option, none, some, Text, take, ◌==◌, if◌then◌else◌}
use kee_pass_key_win.World.{
  Process, RegReply, emit, nonce_read, registry_key_opened, registry_key_closed,
}
use kee_pass_key_win.Utf16.{from_utf16_lossy}
use kee_pass_key_win.CommandLine.Outside.{CommandExternals}

-- What is made of the answer of RegGetValueW: the byte count includes the terminator.
unfoldable pub nonce_of_reply : RegReply → Option Text
unfolding from_utf16_lossy
nonce_of_reply r =
    if r.status == 0 then some (from_utf16_lossy (take (r.cb / 2 - 1) r.buf)) else none

unfoldable pub read_nonce_from_registry :
    {V : Type 0} → CommandExternals V → Process → Option Text × Process
unfolding nonce_of_reply
read_nonce_from_registry x p =
    let p1 = emit registry_key_opened p in
    let r = x.reg_query_value p1.history in
    let p2 = emit registry_key_closed (emit nonce_read p1) in
    if x.reg_open_key p.history == 0 then (nonce_of_reply r, p2) else (none, p1)
