-- ===== src/Auth.antt =====
-- mongo_common/src/auth/mod.rs: the errors of an authentication mechanism. The mechanisms are in
-- the modules below.
pub mod Plain
pub mod Scram
use mongowire.Base.{String, Bytes}

pub data AuthError : Type 0 where
  invalid_message : String → AuthError
  failure : Bytes → AuthError
  nonce_mismatch server_signature_mismatch client_proof_mismatch : AuthError
  state : AuthError
