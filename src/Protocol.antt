-- ===== src/Protocol.antt =====
-- The formats of messages of src/protocol, and the errors that their builders and parsers throw.
pub mod Message
pub mod SealedEnvelope

-- The last one is an exception of a library.
pub data Error : Type 0 where
  recipient_required : Error
  key_required : Error
  unsupported_version : Error
  not_sealed : Error
  not_addressed : Error
  invalid_pow : Error
  invalid_signature : Error
  exception : Error

pub data Result (A : Type 0) : Type 0 where
  ok : A → Result A
  failed : Error → Result A
