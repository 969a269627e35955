-- ===== src/Stun/Tables.antt =====
-- p2p/go-stun/stun/const.go: the tables of error codes, attribute types and message types, most of
-- which the client does not use.
pub mod Layout
use go_util.Prelude.{ℕ}

pub data ErrorCode : Type 0 where
  error_try_alternate error_bad_request error_unauthorized error_unassigned402 : ErrorCode
  error_forbidden error_unknown_attribute error_allocation_mismatch error_stale_nonce : ErrorCode
  error_unassigned439 error_address_family_not_supported error_wrong_credentials : ErrorCode
  error_unsupported_transport_protocol error_peer_address_family_mismatch : ErrorCode
  error_connection_already_exists error_connection_timeout_or_failure : ErrorCode
  error_allocation_quota_reached error_role_conflict error_server_error : ErrorCode
  error_insufficient_capacity : ErrorCode

unfoldable pub error_code : ErrorCode → ℕ
error_code error_try_alternate = 300
error_code error_bad_request = 400
error_code error_unauthorized = 401
error_code error_unassigned402 = 402
error_code error_forbidden = 403
error_code error_unknown_attribute = 420
error_code error_allocation_mismatch = 437
error_code error_stale_nonce = 438
error_code error_unassigned439 = 439
error_code error_address_family_not_supported = 440
error_code error_wrong_credentials = 441
error_code error_unsupported_transport_protocol = 442
error_code error_peer_address_family_mismatch = 443
error_code error_connection_already_exists = 446
error_code error_connection_timeout_or_failure = 447
error_code error_allocation_quota_reached = 486
error_code error_role_conflict = 487
error_code error_server_error = 500
error_code error_insufficient_capacity = 508

pub data AttributeType : Type 0 where
  of_mapped_address of_response_address of_change_request of_source_address : AttributeType
  of_changed_address of_username of_password of_message_integrity of_error_code : AttributeType
  of_unknown_attributes of_reflected_from of_channel_number of_lifetime of_bandwidth : AttributeType
  of_xor_peer_address of_data of_realm of_nonce of_xor_relayed_address : AttributeType
  of_requested_address_family of_even_port of_requested_transport of_dont_fragment : AttributeType
  of_xor_mapped_address of_timer_val of_reservation_token of_priority of_use_candidate :
      AttributeType
  of_padding of_response_port of_connection_id of_xor_mapped_address_exp of_software : AttributeType
  of_alternate_server of_cache_timeout of_fingerprint of_ice_controlled of_ice_controlling :
      AttributeType
  of_response_origin of_other_address of_ecn_check_stun of_cisco_flowdata : AttributeType

unfoldable pub attribute_type : AttributeType → ℕ
attribute_type of_mapped_address = 0x0001
attribute_type of_response_address = 0x0002
attribute_type of_change_request = 0x0003
attribute_type of_source_address = 0x0004
attribute_type of_changed_address = 0x0005
attribute_type of_username = 0x0006
attribute_type of_password = 0x0007
attribute_type of_message_integrity = 0x0008
attribute_type of_error_code = 0x0009
attribute_type of_unknown_attributes = 0x000a
attribute_type of_reflected_from = 0x000b
attribute_type of_channel_number = 0x000c
attribute_type of_lifetime = 0x000d
attribute_type of_bandwidth = 0x0010
attribute_type of_xor_peer_address = 0x0012
attribute_type of_data = 0x0013
attribute_type of_realm = 0x0014
attribute_type of_nonce = 0x0015
attribute_type of_xor_relayed_address = 0x0016
attribute_type of_requested_address_family = 0x0017
attribute_type of_even_port = 0x0018
attribute_type of_requested_transport = 0x0019
attribute_type of_dont_fragment = 0x001a
attribute_type of_xor_mapped_address = 0x0020
attribute_type of_timer_val = 0x0021
attribute_type of_reservation_token = 0x0022
attribute_type of_priority = 0x0024
attribute_type of_use_candidate = 0x0025
attribute_type of_padding = 0x0026
attribute_type of_response_port = 0x0027
attribute_type of_connection_id = 0x002a
attribute_type of_xor_mapped_address_exp = 0x8020
attribute_type of_software = 0x8022
attribute_type of_alternate_server = 0x8023
attribute_type of_cache_timeout = 0x8027
attribute_type of_fingerprint = 0x8028
attribute_type of_ice_controlled = 0x8029
attribute_type of_ice_controlling = 0x802a
attribute_type of_response_origin = 0x802b
attribute_type of_other_address = 0x802c
attribute_type of_ecn_check_stun = 0x802d
attribute_type of_cisco_flowdata = 0xc000

pub data Method : Type 0 where
  type_binding type_shared_secret type_allocate type_refresh type_send type_data : Method
  type_create_permisiion type_channel_binding type_connect type_connection_bind : Method
  type_connection_attempt : Method

pub data Class : Type 0 where
  request response error_response : Class

unfoldable pub message_type : Method → Class → ℕ
message_type type_binding request = 0x0001
message_type type_binding response = 0x0101
message_type type_binding error_response = 0x0111
message_type type_shared_secret request = 0x0002
message_type type_shared_secret response = 0x0102
message_type type_shared_secret error_response = 0x0112
message_type type_allocate request = 0x0003
message_type type_allocate response = 0x0103
message_type type_allocate error_response = 0x0113
message_type type_refresh request = 0x0004
message_type type_refresh response = 0x0104
message_type type_refresh error_response = 0x0114
message_type type_send request = 0x0006
message_type type_send response = 0x0106
message_type type_send error_response = 0x0116
message_type type_data request = 0x0007
message_type type_data response = 0x0107
message_type type_data error_response = 0x0117
message_type type_create_permisiion request = 0x0008
message_type type_create_permisiion response = 0x0108
message_type type_create_permisiion error_response = 0x0118
message_type type_channel_binding request = 0x0009
message_type type_channel_binding response = 0x0109
message_type type_channel_binding error_response = 0x0119
message_type type_connect request = 0x000a
message_type type_connect response = 0x010a
message_type type_connect error_response = 0x011a
message_type type_connection_bind request = 0x000b
message_type type_connection_bind response = 0x010b
message_type type_connection_bind error_response = 0x011b
message_type type_connection_attempt request = 0x000c
message_type type_connection_attempt response = 0x010c
message_type type_connection_attempt error_response = 0x011c
