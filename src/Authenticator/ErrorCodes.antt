-- ===== src/Authenticator/ErrorCodes.antt =====
-- The plugin's error codes as the HRESULTs that Windows gets.
use kee_pass_key_win.Prelude.{ℤ, minus, Text, ◌≡◌, ◌⊎◌, ◌↔◌, arith, true}
use kee_pass_key_win.Hresult.{
  e_accessdenied, e_fail, e_invalidarg, e_credential_excluded, nte_not_found, is_err,
}
use kee_pass_key_win.Ipc.ClientError.{from_rpc}
use kee_pass_key_win.Authenticator.{hresult_of}

-- An error reply of the plugin always becomes a failing HRESULT, and one of five: each of the four
-- that mean something of their own stands for exactly the codes named here.
hresult_of-from_rpc :
    (c : ℤ) (m : Text)
    → let hr = hresult_of (from_rpc c m) in
      (is_err hr ≡ true)
      × ((hr ≡ e_accessdenied) ↔ (c ≡ minus 32010))
      × ((hr ≡ nte_not_found) ↔ (c ≡ minus 32020))
      × ((hr ≡ e_credential_excluded) ↔ (c ≡ minus 32031))
      × ((hr ≡ e_invalidarg) ↔ ((c ≡ minus 32030) ⊎ (c ≡ minus 32041)))
      × ((hr ≡ e_fail)
          ⊎ (hr ≡ e_accessdenied)
          ⊎ (hr ≡ nte_not_found)
          ⊎ (hr ≡ e_credential_excluded)
          ⊎ (hr ≡ e_invalidarg))
unfolding hresult_of from_rpc
hresult_of-from_rpc c m =
    (ground arith, ground arith, ground arith, ground arith, ground arith, ground arith)
