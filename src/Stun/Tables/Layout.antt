-- ===== src/Stun/Tables/Layout.antt =====
-- The message types are those of section 6 of RFC 5389.
use go_util.Prelude.{ℕ, ◌+◌, ◌*◌, ◌/◌, ◌%◌, ◌≡◌, refl}
use go_util.Stun.Tables.{
  Method, type_binding, type_shared_secret, type_allocate, type_refresh, type_send, type_data,
  type_create_permisiion, type_channel_binding, type_connect, type_connection_bind,
  type_connection_attempt, Class, request, response, error_response, message_type,
}

-- The twelve bits of the method and the two of the class, as figure 3 of the RFC places them.
unfoldable pub laid_out : ℕ → ℕ → ℕ
laid_out method class =
    method % 16
    + 16 * (class % 2)
    + 32 * (method / 16 % 8)
    + 256 * (class / 2)
    + 512 * (method / 128)

unfoldable pub method_number : Method → ℕ
method_number type_binding = 1
method_number type_shared_secret = 2
method_number type_allocate = 3
method_number type_refresh = 4
method_number type_send = 6
method_number type_data = 7
method_number type_create_permisiion = 8
method_number type_channel_binding = 9
method_number type_connect = 10
method_number type_connection_bind = 11
method_number type_connection_attempt = 12

unfoldable pub class_number : Class → ℕ
class_number request = 0
class_number response = 2
class_number error_response = 3

-- Every message type of the table is its method's number and its class, laid out as in figure 3 of
-- RFC 5389.
pub message_type-laid_out :
    (m : Method) (c : Class) → message_type m c ≡ laid_out (method_number m) (class_number c)
unfolding message_type laid_out method_number class_number
message_type-laid_out type_binding request = refl
message_type-laid_out type_binding response = refl
message_type-laid_out type_binding error_response = refl
message_type-laid_out type_shared_secret request = refl
message_type-laid_out type_shared_secret response = refl
message_type-laid_out type_shared_secret error_response = refl
message_type-laid_out type_allocate request = refl
message_type-laid_out type_allocate response = refl
message_type-laid_out type_allocate error_response = refl
message_type-laid_out type_refresh request = refl
message_type-laid_out type_refresh response = refl
message_type-laid_out type_refresh error_response = refl
message_type-laid_out type_send request = refl
message_type-laid_out type_send response = refl
message_type-laid_out type_send error_response = refl
message_type-laid_out type_data request = refl
message_type-laid_out type_data response = refl
message_type-laid_out type_data error_response = refl
message_type-laid_out type_create_permisiion request = refl
message_type-laid_out type_create_permisiion response = refl
message_type-laid_out type_create_permisiion error_response = refl
message_type-laid_out type_channel_binding request = refl
message_type-laid_out type_channel_binding response = refl
message_type-laid_out type_channel_binding error_response = refl
message_type-laid_out type_connect request = refl
message_type-laid_out type_connect response = refl
message_type-laid_out type_connect error_response = refl
message_type-laid_out type_connection_bind request = refl
message_type-laid_out type_connection_bind response = refl
message_type-laid_out type_connection_bind error_response = refl
message_type-laid_out type_connection_attempt request = refl
message_type-laid_out type_connection_attempt response = refl
message_type-laid_out type_connection_attempt error_response = refl
