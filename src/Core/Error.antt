-- ===== src/Core/Error.antt =====
-- crates/chromulate-core/src/error.rs: errors, the phase they come from, and which may be retried.
-- The underlying sources of an error, which are only displayed, are left out.
use chromulate.Prelude.{ℕ, Bool, true, false}
use chromulate.Prelude.Text.{Text}

pub data Phase : Type 0 where
  build resolve connect handshake send await_response receive_body : Phase

pub data Error : Type 0 where
  builder : Text → Error
  url : Text → Error
  unsupported_scheme : Text → Error
  resolve_error : Text → Error
  connect_error : Text → Error
  proxy : Text → Text → Error
  tls : Text → Error
  protocol : Text → Error
  timeout : Phase → Error
  too_many_redirects : ℕ → Error
  redirect : Text → Error
  body : Phase → Error
  decode : Text → Error
  body_too_large : ℕ → Error
  middleware : Text → Error
  shutdown : Error
  config : Text → Error

unfoldable pub is_retryable_phase : Phase → Bool
is_retryable_phase resolve = true
is_retryable_phase connect = true
is_retryable_phase handshake = true
is_retryable_phase await_response = true
is_retryable_phase _ = false

unfoldable pub is_retryable : Error → Bool
is_retryable (resolve_error host) = true
is_retryable (connect_error target) = true
is_retryable (tls target) = false
is_retryable (timeout phase) = is_retryable_phase phase
is_retryable (proxy name message) = true
is_retryable (protocol message) = false
is_retryable (body phase) = false
is_retryable _ = false
