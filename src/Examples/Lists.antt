-- ===== src/Examples/Lists.antt =====
-- Runs of reconciliation, registration, and the reading of fields.
use kee_pass_key_win.Prelude.{◌≡◌, refl, false, List, [], ◌∷◌, ok}
use kee_pass_key_win.World.{OutBuffer, Process, details_freed, emit}
use kee_pass_key_win.Prelude.{false, some}
use kee_pass_key_win.Prelude.{String, arith, eq_text}
use kee_pass_key_win.World.{Externals}
use kee_pass_key_win.Prelude.{ℕ}
use kee_pass_key_win.Reconciliation.Entries.{entries}
use kee_pass_key_win.Reconciliation.{os_id, os_ids_from}
use kee_pass_key_win.Reconciliation.Exactly.{with_os_list-exactly, with_os_list-synced}
use kee_pass_key_win.Reconciliation.Sources.{
  AllDescribed, identifiers, is_among, to_add, to_remove, os_ids-AreListed,
}
use kee_pass_key_win.Examples.Sample.{fields, word}
use kee_pass_key_win.Reconciliation.{os_ids, with_os_list}
use kee_pass_key_win.Reconciliation.Differences.{added, removed}
use kee_pass_key_win.OpSignKey.{KeyBindings, ref_clsid, load_key_bindings}
use kee_pass_key_win.World.{fresh_process}
use kee_pass_key_win.Examples.Sample.{Value, item, sample, database, with_pipe}

abbrev vault_items : List Value
vault_items = item 1 ∷ item 2 ∷ []

abbrev the_list : OutBuffer
the_list = record { cb = 2; ptr = 9 }

-- What the system's records hold.
abbrev known : List (List ℕ)
known = os_ids sample the_list (with_pipe 5)

differences_example :
    with_os_list sample vault_items (ok the_list, with_pipe 5)
    ≡ emit (details_freed 2 9) (
        removed 9
          (to_remove (identifiers sample vault_items) 0 known)
          (added (to_add sample known vault_items) (with_pipe 5)))
differences_example =
    with_os_list-exactly sample database 1 1 vault_items the_list (with_pipe 5) refl refl refl
      (omega arith) (ground arith) known (os_ids-AreListed sample the_list (with_pipe 5) refl)

abbrev start : Process
start = with_pipe 5

abbrev key_entrypoints : KeyBindings
key_entrypoints = record {
  get_key = ref_clsid 1 "WebAuthNPluginGetOperationSigningPublicKey";
  free_key = some 1;
}

-- The process after the entrypoints for the key were looked up.
abbrev looked_up : Process
looked_up = (load_key_bindings sample fresh_process).1

-- The vault's items as they are sent, read again under the other names.
abbrev from_word : Value → Value
from_word (word (n ∷ [])) = item n
from_word v = fields

abbrev first_value : List (String × Value) → Value
first_value [] = fields
first_value (kv ∷ kvs) = from_word kv.1

abbrev consistent : Externals Value
consistent = record sample { object = first_value }

abbrev known_before : List (List ℕ)
known_before = os_ids consistent the_list start

all_described : AllDescribed consistent known_before vault_items
unfolding os_ids os_ids_from os_id eq_text
all_described =
    (λ id e k. (_, refl, ground (arith, e)), (λ id e k. absurd (ground (arith, e, k)), tt))

entries_example :
    is_among
      (entries known_before (with_os_list consistent vault_items (ok the_list, start)).history)
      (1 ∷ [])
    ≡ is_among (identifiers consistent vault_items) (1 ∷ [])
entries_example =
    with_os_list-synced consistent database 1 1 vault_items the_list start refl refl refl
      (omega arith) (ground arith) known_before (os_ids-AreListed consistent the_list start refl)
      refl refl all_described (1 ∷ []) refl
