-- ===== src/Ipc/ErrorCodes.antt =====
-- What the RPC error codes of the plugin mean to the provider.
use kee_pass_key_win.Prelude.{ℤ, minus, Text, ◌≡◌, ◌⊎◌, ◌↔◌, arith}
use kee_pass_key_win.Ipc.ClientError.{
  vault_locked, no_credentials, client_unauthorized, unsupported_algorithm, credential_excluded,
  invalid_option, invalid_request, internal, from_rpc,
}

-- Each error of its own stands for exactly one code (for exactly two: the handshake error and the
-- invalid request), and no other code is read as that error; the two errors with a text carry the message of the reply.
pub from_rpc_codes :
    (c : ℤ) (m : Text)
    → ((from_rpc c m ≡ vault_locked) ↔ (c ≡ minus 32010))
      × ((from_rpc c m ≡ no_credentials) ↔ (c ≡ minus 32020))
      × ((from_rpc c m ≡ unsupported_algorithm) ↔ (c ≡ minus 32030))
      × ((from_rpc c m ≡ credential_excluded) ↔ (c ≡ minus 32031))
      × ((from_rpc c m ≡ invalid_option) ↔ (c ≡ minus 32041))
      × ((from_rpc c m ≡ client_unauthorized) ↔ ((c ≡ minus 32000) ⊎ (c ≡ minus 32001)))
      × ((from_rpc c m ≡ invalid_request m) ↔ ((c ≡ minus 32600) ⊎ (c ≡ minus 32602)))
      × ((from_rpc c m ≡ internal m) ↔ (c ≡ minus 32603))
unfolding from_rpc
from_rpc_codes c m = (
  ground arith,
  ground arith,
  ground arith,
  ground arith,
  ground arith,
  ground arith,
  ground arith,
  ground arith,
)
