-- ===== src/Server/Recovery.antt =====
-- An activation gives an object that reaches the plugin, also after the pipe was lost.
use kee_pass_key_win.Prelude.{ℕ, ◌≡◌, ◌⊎◌, none, some, ok, get_elem?}
use kee_pass_key_win.World.{Guid, Externals, PipeClient, Process}
use kee_pass_key_win.World.{pipe_of}
use kee_pass_key_win.Hresult.{s_ok}
use kee_pass_key_win.Connection.{connect_and_handshake}
use kee_pass_key_win.ComObject.{ComObject, Created}

-- An object was handed out, whose state is shared and has a pipe.
pub record IsConnected (r : Created × Process) : Type 0 where
  object : ComObject
  pipe : PipeClient
  hr : r.0.hr ≡ s_ok
  handed : r.0.object ≡ some object
  held : pipe_of (get_elem? r.1.arcs object.state) ≡ some pipe
  shared : r.1.shared_state ≡ some object.state

module _ {V : Type 0} (x : Externals V) where
  -- What an activation needs: a state that is shared, or a connection that succeeds.
  abbrev pub Reaches : ℕ → Process → Type 0
  Reaches session_id p =
      ((s : ℕ) × (p.shared_state ≡ some s))
      ⊎ ((d : PipeClient) × (p.shared_state ≡ none)
          × ((connect_and_handshake x session_id p).0 ≡ ok d))
