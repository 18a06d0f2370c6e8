-- ===== src/Examples/Layouts.antt =====
-- Where the fields lie on x64 and on x86, and the structs that hold a GUID.
use kee_pass_key_win.Prelude.{◌≡◌, [], ◌∷◌, refl}
use kee_pass_key_win.Layout.{
  inline_guid, offsets, end_of, align_up, shape_of, shapes, struct_shape, operation_request,
  operation_response, cancel_operation_request, add_authenticator_options,
  add_authenticator_response, user_verification_request, user_verification_request2,
  credential_details,
}
use kee_pass_key_win.Layout.Slots.{InSlots, structs-InSlots}

guid_test : shape_of 8 inline_guid ≡ record { size = 16; align = 4 }
unfolding shape_of struct_shape end_of align_up
guid_test = refl

request_test : offsets 0 (shapes 8 operation_request) ≡ 0 ∷ 8 ∷ 24 ∷ 32 ∷ 40 ∷ 44 ∷ 48 ∷ []
unfolding offsets shapes shape_of struct_shape end_of align_up
request_test = refl

request_x86_test : offsets 0 (shapes 4 operation_request) ≡ 0 ∷ 4 ∷ 20 ∷ 24 ∷ 28 ∷ 32 ∷ 36 ∷ []
unfolding offsets shapes shape_of struct_shape end_of align_up
request_x86_test = refl

cancel_test : struct_shape (shapes 8 cancel_operation_request) ≡ record { size = 32; align = 8 }
unfolding shapes shape_of struct_shape end_of align_up
cancel_test = refl

options_test : struct_shape (shapes 8 add_authenticator_options) ≡ record { size = 72; align = 8 }
unfolding shapes shape_of struct_shape end_of align_up
options_test = refl

details_test : offsets 0 (shapes 8 credential_details) ≡ 0 ∷ 8 ∷ 16 ∷ 24 ∷ 32 ∷ 40 ∷ 48 ∷ 56 ∷ []
unfolding offsets shapes shape_of align_up
details_test = refl

x64_example :
    InSlots 1 9 (5 ∷ 7 ∷ []) add_authenticator_options
    × InSlots 1 2 (0 ∷ []) add_authenticator_response
    × InSlots 1 4 [] user_verification_request
    × InSlots 1 6 (4 ∷ []) user_verification_request2
    × InSlots 1 8 (0 ∷ 4 ∷ []) credential_details
    × InSlots 1 2 (0 ∷ []) operation_response
x64_example = structs-InSlots 1
