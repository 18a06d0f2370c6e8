-- ===== src/Layout.antt =====
-- The structs of src/KeePassKeyWin.Provider/src/com/types.rs as they lie in memory. A `repr(C)` struct
-- holds its fields in their order, each at the next multiple of its alignment, and its size is rounded up
-- to a multiple of its own. `w` is the size of a pointer: 8 on x64, 4 on x86.
pub mod Slots
use kee_pass_key_win.Prelude.{ℕ, ◌+◌, ◌-◌, ◌*◌, ◌/◌, List, [], ◌∷◌}
use Prim.Native.Nat.{max}

-- A `u32` or an enum over it; a pointer or an `isize`; a Guid that is not behind a pointer.
pub data FieldKind : Type 0 where
  dword pointer inline_guid : FieldKind

pub record Shape : Type 0 where
  pub size : ℕ
  pub align : ℕ

unfoldable pub align_up : ℕ → ℕ → ℕ
align_up n a = (n + (a - 1)) / a * a

-- Guid: a `u32`, two `u16` and eight bytes.
abbrev pub guid_members : List Shape
guid_members =
    record { size = 4; align = 4 }
    ∷ record { size = 2; align = 2 }
    ∷ record { size = 2; align = 2 }
    ∷ record { size = 8; align = 1 }
    ∷ []

-- Where the fields begin, from a place on.
unfoldable pub offsets : ℕ → List Shape → List ℕ
unfolding align_up
offsets n [] = []
offsets n (s ∷ ss) = align_up n s.align ∷ offsets (align_up n s.align + s.size) ss

-- Where the last of them ends.
unfoldable pub end_of : ℕ → List Shape → ℕ
unfolding align_up
end_of n [] = n
end_of n (s ∷ ss) = end_of (align_up n s.align + s.size) ss

abbrev pub widest : List Shape → ℕ
widest [] = 1
widest (s ∷ ss) = max s.align (widest ss)

unfoldable pub struct_shape : List Shape → Shape
unfolding end_of align_up
struct_shape ss = record { size = align_up (end_of 0 ss) (widest ss); align = widest ss }

unfoldable pub shape_of : ℕ → FieldKind → Shape
unfolding struct_shape
shape_of w dword = record { size = 4; align = 4 }
shape_of w pointer = record { size = w; align = w }
shape_of w inline_guid = struct_shape guid_members

unfoldable pub shapes : ℕ → List FieldKind → List Shape
unfolding shape_of
shapes w [] = []
shapes w (f ∷ fs) = shape_of w f ∷ shapes w fs

-- WebauthNPluginRequestType, which is `repr(u32)`.
abbrev pub request_type : FieldKind
request_type = dword

-- WebauthNPluginOperationRequest
abbrev pub operation_request : List FieldKind
operation_request = pointer ∷ inline_guid ∷ dword ∷ pointer ∷ request_type ∷ dword ∷ pointer ∷ []

-- WebauthNPluginOperationResponse
abbrev pub operation_response : List FieldKind
operation_response = dword ∷ pointer ∷ []

-- WebauthNPluginCancelOperationRequest
abbrev pub cancel_operation_request : List FieldKind
cancel_operation_request = inline_guid ∷ dword ∷ pointer ∷ []

-- WebauthnPluginAddAuthenticatorOptions
abbrev pub add_authenticator_options : List FieldKind
add_authenticator_options =
    pointer ∷ pointer ∷ pointer ∷ pointer ∷ pointer ∷ dword ∷ pointer ∷ dword ∷ pointer ∷ []

-- WebauthnPluginAddAuthenticatorResponse
abbrev pub add_authenticator_response : List FieldKind
add_authenticator_response = dword ∷ pointer ∷ []

-- WebauthnPluginUserVerificationRequest
abbrev pub user_verification_request : List FieldKind
user_verification_request = pointer ∷ pointer ∷ pointer ∷ pointer ∷ []

-- WebauthnPluginUserVerificationRequest2
abbrev pub user_verification_request2 : List FieldKind
user_verification_request2 = pointer ∷ pointer ∷ pointer ∷ pointer ∷ dword ∷ pointer ∷ []

-- WebauthnPluginCredentialDetails
abbrev pub credential_details : List FieldKind
credential_details = dword ∷ pointer ∷ pointer ∷ pointer ∷ dword ∷ pointer ∷ pointer ∷ pointer ∷ []
