-- ===== src/ComObject.antt =====
-- The COM objects of the provider: `IPluginAuthenticatorImpl` of com/server.rs, and the class factory
-- of com/exe_server.rs that hands them out. An object is its reference count with the `Arc` that it
-- holds; a freed object is gone. Log lines are left out.
pub mod References
pub mod Tidy
pub mod Sharing
use kee_pass_key_win.Prelude.{
  ℕ, ◌+◌, ◌-◌, ◌%◌, ◌^◌, Bool, true, false, Option, none, some, List, [], ◌∷◌, ◌++◌, Result, ok,
  err, to_option, length, ◌==◌, ◌||◌, if◌then◌else◌,
}
use kee_pass_key_win.World.{
  Guid, Externals, PipeClient, AuthenticatorState, Process, server_add_ref, server_release, emit,
}
use kee_pass_key_win.Hresult.{is_err, s_ok, e_nointerface}
use kee_pass_key_win.Guid.{eq_guid, iid_iunknown, iid_iplugin_authenticator, iid_iclass_factory}
use kee_pass_key_win.Connection.{connect_and_handshake}

-- IPluginAuthenticatorImpl
pub record ComObject : Type 0 where
  pub ref_count : ℕ
  pub state : ℕ

-- ClassFactory
pub record ClassFactory : Type 0 where
  pub ref_count : ℕ
  pub session_id : ℕ

-- `fetch_add(1)` and `fetch_sub(1)` of an `AtomicU32`
abbrev pub plus_one : ℕ → ℕ
plus_one n = (n + 1) % 2 ^ 32

abbrev pub less_one : ℕ → ℕ
less_one n = (n + (2 ^ 32 - 1)) % 2 ^ 32

unfoldable pub new_object : ℕ → ComObject
new_object state = record { ref_count = 1; state = state }

unfoldable pub add_ref : ComObject → ℕ × ComObject
add_ref o = (plus_one o.ref_count, record o { ref_count = plus_one o.ref_count })

-- The count that is returned, and the object unless it was freed.
unfoldable pub release : ComObject → Process → (ℕ × Option ComObject) × Process
release o p =
    if o.ref_count == 1
    then ((0, none), emit server_release p)
    else ((less_one o.ref_count, some (record o { ref_count = less_one o.ref_count })), p)

-- The HRESULT, whether `*ppv` is the object rather than null, and the object.
unfoldable pub query_interface : Guid → ComObject → ℕ × Bool × ComObject
unfolding add_ref eq_guid
query_interface iid o =
    if eq_guid iid iid_iunknown || eq_guid iid iid_iplugin_authenticator
    then (s_ok, true, (add_ref o).1)
    else (e_nointerface, false, o)

unfoldable pub new_factory : ℕ → ClassFactory
new_factory session_id = record { ref_count = 1; session_id = session_id }

unfoldable pub cf_add_ref : ClassFactory → ℕ × ClassFactory
cf_add_ref f = (plus_one f.ref_count, record f { ref_count = plus_one f.ref_count })

unfoldable pub cf_query_interface : Guid → ClassFactory → ℕ × Bool × ClassFactory
unfolding cf_add_ref eq_guid
cf_query_interface iid f =
    if eq_guid iid iid_iunknown || eq_guid iid iid_iclass_factory
    then (s_ok, true, (cf_add_ref f).1)
    else (e_nointerface, false, f)

unfoldable pub cf_release : ClassFactory → ℕ × Option ClassFactory
cf_release f =
    if f.ref_count == 1
    then (0, none)
    else (less_one f.ref_count, some (record f { ref_count = less_one f.ref_count }))

-- `lock` is a Windows BOOL.
unfoldable pub cf_lock_server : ℕ → Process → ℕ × Process
cf_lock_server lock p = (s_ok, if lock == 0 then emit server_release p else emit server_add_ref p)

-- What `cf_create_instance` gives: its HRESULT, the object unless it was freed again, and the state
-- for which the background task `reconcile_vault_with_os` was spawned, if it was.
pub record Created : Type 0 where
  pub hr : ℕ
  pub object : Option ComObject
  pub spawned : Option ℕ

-- The state that an object will hold, with the state to reconcile if it is new.
pub record Chosen : Type 0 where
  pub state : ℕ
  pub spawned : Option ℕ

-- A new allocation, which goes into SHARED_STATE if its pipe is there.
unfoldable pub allocate_state : ℕ → Option PipeClient → Process → Chosen × Process
allocate_state session_id pipe p =
    let fresh : AuthenticatorState = record { session_id = session_id; pipe = pipe } in
    let arc = length p.arcs in
    let p' = record p { arcs = p.arcs ++ fresh ∷ [] } in
    elim pipe [
      | some c ↦ (record { state = arc; spawned = some arc }, record p' { shared_state = some arc })
      | none ↦ (record { state = arc; spawned = none }, p')
    ]

-- The end of `cf_create_instance`: a new object is asked for the interface.
unfoldable pub hand_over : Guid → Chosen × Process → Created × Process
unfolding new_object query_interface
hand_over riid (c, p) =
    let p' = emit server_add_ref p in
    let (hr, out, o) = query_interface riid (new_object c.state) in
    if is_err hr
    then (record { hr = hr; object = none; spawned = c.spawned }, emit server_release p')
    else (record { hr = hr; object = some o; spawned = c.spawned }, p')

module _ {V : Type 0} (x : Externals V) where
  unfoldable pub choose_state : ℕ → Process → Chosen × Process
  unfolding allocate_state
  choose_state session_id p = elim p.shared_state [
    | some s ↦ (record { state = s; spawned = none }, p)
    | none ↦
        let (pipe, p1) = connect_and_handshake x session_id p in
        allocate_state session_id (to_option pipe) p1
  ]

  unfoldable pub cf_create_instance : ClassFactory → Guid → Process → Created × Process
  unfolding choose_state hand_over
  cf_create_instance f riid p = hand_over riid (choose_state f.session_id p)
