-- ===== src/Protocol/Event.antt =====
-- protocol/src/lib.rs: `ParsedKommsEvent`, the error types and the wire constants.
-- A u8 or u64 is a number, a byte array or `Vec<u8>` the list of its bytes, a `String` its UTF-8 bytes.
-- `Value` is ciborium's value type, which the repository only imports.
use komms_cli.Base.{ℕ, String, List, [], ◌∷◌, Bool, Option}
use komms_cli.Protocol.EventType.{EventType}

pub record ParsedKommsEvent (Value : Type 0) : Type 0 where
  pub v : ℕ
  pub t : EventType
  pub sid : Option (List ℕ)
  pub cid : Option (List ℕ)
  pub did : Option (List ℕ)
  pub pid : Option (List ℕ)
  pub mid : Option (List ℕ)
  pub ref_bytes : Option (List ℕ)
  pub enc : Bool
  pub ts : Option ℕ
  pub n : Option ℕ
  pub sig : Option (List ℕ)
  pub parent_mid : Option (List ℕ)
  pub enc_scheme : Option ℕ
  pub kind : Option ℕ
  pub mime : Option (List ℕ)
  pub ref_type : Option ℕ
  pub device_pk : Option (List ℕ)
  pub sig_scheme : Option ℕ
  pub reaction_key : Option (List ℕ)
  pub payment_hint : Option (List ℕ)
  pub member_tag : Option (List ℕ)
  pub member_sealed : Option (List ℕ)
  pub enc_sid : Option (List ℕ)
  pub enc_cid : Option (List ℕ)
  pub enc_body_ref : Option (List ℕ)
  pub enc_parent_mid : Option (List ℕ)
  pub match_tag : Option (List ℕ)
  pub enc_t : Option (List ℕ)
  pub key_epoch : Option ℕ
  pub sealed_signer : Option (List ℕ)
  pub role : Option ℕ
  pub target : Option (List ℕ)
  pub extension_fields : List (ℕ × Value)

abbrev pub komms_payload_prefix : List ℕ
komms_payload_prefix = 0x4B ∷ 0x4F ∷ 0x4D ∷ 0x4D ∷ []

abbrev pub max_known_version : ℕ
max_known_version = 1

abbrev pub extension_key_min : ℕ
extension_key_min = 33

abbrev pub v1_1_tag_len : ℕ
v1_1_tag_len = 16

abbrev pub role_max : ℕ
role_max = 4

pub data ParseError : Type 0 where
  cbor : String → ParseError
  not_a_map invalid_key invalid_sig_length : ParseError
  duplicate_key reserved_core_key event_type_overflow : ℕ → ParseError
  expected_uint expected_bool expected_bytes32 expected_bytes16 : String → ParseError
  expected_bytes expected_text missing_field : String → ParseError

pub data ValidationError : Type 0 where
  bad_version unknown_enc_scheme unknown_role invalid_target_length : ℕ → ValidationError
  invalid_ref invalid_enc invalid_reaction_key invalid_mime : ValidationError
  forbidden_field missing_for_type : EventType → String → ValidationError
  enc_scheme_mismatch : ℕ → Bool → ValidationError
  v1_missing_field v1_1_missing_field invalid_tag_length : String → ValidationError
  ephemeral_on_chain opaque_event_type : EventType → ValidationError
  deprecated_enc_scheme_mls sealed_sender_not_implemented : ValidationError
