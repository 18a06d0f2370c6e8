-- ===== src/CredentialStore/Aside.antt =====
-- The credential database of the system is reached without touching the plugin's pipe.
use kee_pass_key_win.Prelude.{ℕ, arith}
use kee_pass_key_win.World.{CredentialDetails, Externals, Process}
use kee_pass_key_win.World.Aside.{IsAside}
use kee_pass_key_win.CredentialStore.{
  load_bindings, bindings, add_credentials, get_all_credentials, remove_credentials,
  free_credential_details_array,
}

module _ {V : Type 0} (x : Externals V) where
  load_bindings-IsAside : (p : Process) → IsAside p (load_bindings x p).1
  unfolding load_bindings
  load_bindings-IsAside p = ground arith

  bindings-IsAside : (p : Process) → IsAside p (bindings x p).1
  unfolding bindings
  bindings-IsAside p = ground (arith, load_bindings-IsAside p)

  pub add_credentials-IsAside :
      (d : CredentialDetails) (p : Process) → IsAside p (add_credentials x d p).1
  unfolding add_credentials
  add_credentials-IsAside d p = ground (arith, bindings-IsAside p)

  pub get_all_credentials-IsAside : (p : Process) → IsAside p (get_all_credentials x p).1
  unfolding get_all_credentials
  get_all_credentials-IsAside p = ground (arith, bindings-IsAside p)

  pub remove_credentials-IsAside :
      (arr i : ℕ) (p : Process) → IsAside p (remove_credentials x arr i p).1
  unfolding remove_credentials
  remove_credentials-IsAside arr i p = ground (arith, bindings-IsAside p)

  pub free_credential_details_array-IsAside :
      (n arr : ℕ) (p : Process) → IsAside p (free_credential_details_array x n arr p)
  unfolding free_credential_details_array
  free_credential_details_array-IsAside n arr p = ground (arith, bindings-IsAside p)
