-- ===== src/Errors.antt =====
-- Results and the error types that the layers share: `SchemeError` of
-- src/core/schemes/src/interface.rs and `ProtocolError` of src/core/protocols/src/interface.rs.
use quorumcrypt.Base.{String, Option}

pub data Result {ℓ κ} (E : Type κ) (A : Type ℓ) : Type (ℓ ⊔ κ) where
  ok : A → Result E A
  err : E → Result E A

infixl 5 ◌>>=◌
abbrev pub ◌>>=◌ {ℓ κ} : {E : Type κ} {A B : Type ℓ} → Result E A → (A → Result E B) → Result E B
ok a >>= f = f a
err e >>= f = err e

-- `.ok()`
abbrev pub to_option {ℓ κ} : {E : Type κ} {A : Type ℓ} → Result E A → Option A
to_option (ok a) = Option.some a
to_option (err e) = Option.none

pub data SchemeError : Type 0 where
  wrong_group wrong_scheme wrong_key_provided serialization_failed : SchemeError
  deserialization_failed curve_does_not_support_pairings params_not_set : SchemeError
  id_not_found incompatible_group wrong_state previous_round_not_executed : SchemeError
  invalid_round invalid_share protocol_not_finished not_ready_for_next_round : SchemeError
  message_not_specified message_already_specified : SchemeError
  serialization_error : String → SchemeError
  unknown_scheme unknown_group_string unknown_group io_error : SchemeError
  invalid_params : Option String → SchemeError
  aborted : String → SchemeError
  key_not_found mac_failure no_more_commitments : SchemeError

pub data ProtocolError : Type 0 where
  scheme_error : SchemeError → ProtocolError
  invalid_ciphertext instance_not_found internal_error not_finished : ProtocolError
  invalid_round invalid_share : ProtocolError
