-- ===== src/Authenticator/Carried.antt =====
-- What the call of an operation of src/KeePassKeyWin.Provider/src/com/server.rs carries, written out from
-- the request, from the buffer of the verification, and from the memory that they point to.
use kee_pass_key_win.Prelude.{ℕ, zero, suc, true, List, [], ◌∷◌, String, codes, ◌≡◌, refl, arith}
use kee_pass_key_win.World.{BufferReply, Externals, Process, UvTier, v1, v2_experimental, v2_stable}
use kee_pass_key_win.UserVerification.{ipc_str}
use kee_pass_key_win.Authenticator.{
  OperationRequest, bytes_at, encoded_request, request_signature, rpc_params,
}

abbrev tier_name : UvTier → String
tier_name v2_stable = "v2_stable"
tier_name v2_experimental = "v2_experimental"
tier_name v1 = "v1"

module _ {V : Type 0} (x : Externals V) where
  -- The bytes behind a pointer, none behind a null pointer.
  abbrev memory : Process → ℕ → ℕ → List ℕ
  memory p zero cb = []
  memory p (suc ptr) zero = []
  memory p (suc ptr) (suc cb) = x.read_memory p.history (suc ptr) (suc cb)

  -- The parameters of the call: the request as it lies in memory in `p`, its signature, and the bytes
  -- that the verification has handed out in `q`.
  abbrev pub carried : Process → Process → OperationRequest → BufferReply → UvTier → V
  carried p q req uv tier =
      let request = x.read_memory p.history req.pb_encoded_request req.cb_encoded_request in
      let signature = memory p req.pb_request_signature req.cb_request_signature in
      x.object (
        ("cbor", x.string (x.b64_encode request))
        ∷ ("uv", x.boolean true)
        ∷ ("pbRequestSignatureB64", x.string (x.b64_encode signature))
        ∷ ("uvSignatureB64", x.string (x.b64_encode (memory q uv.out.ptr uv.out.cb)))
        ∷ ("uvBindingTier", x.string (codes (tier_name tier)))
        ∷ [])

  bytes_at-memory : (p : Process) (ptr cb : ℕ) → bytes_at x p ptr cb ≡ memory p ptr cb
  bytes_at-memory p zero zero = refl
  bytes_at-memory p zero (suc cb) = ground arith
  bytes_at-memory p (suc ptr) zero = ground arith
  bytes_at-memory p (suc ptr) (suc cb) = ground arith

  ipc_str-tier_name : (tier : UvTier) → ipc_str tier ≡ codes (tier_name tier)
  unfolding ipc_str
  ipc_str-tier_name v2_stable = refl
  ipc_str-tier_name v2_experimental = refl
  ipc_str-tier_name v1 = refl

  -- The parameters of the call are these.
  pub rpc_params-carried :
      (p q : Process) (req : OperationRequest) (uv : BufferReply) (tier : UvTier)
      → rpc_params x
          (encoded_request x req p)
          (request_signature x req p)
          (bytes_at x q uv.out.ptr uv.out.cb)
          tier
        ≡ carried p q req uv tier
  unfolding rpc_params encoded_request request_signature
  rpc_params-carried p q req uv tier =
      let sig = bytes_at-memory p req.pb_request_signature req.cb_request_signature in
      let uv_sig = bytes_at-memory q uv.out.ptr uv.out.cb in
      rw (sig, uv_sig, rpc_params, ipc_str-tier_name tier) refl
