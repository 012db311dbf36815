-- ===== src/Injector/Ipc.antt =====
-- windows/flowtype-core/src/ipc.rs: requests to the injector and its answers.
use flow_type.Prelude.{Text, ℤ, ℕ, Bool, Option}

pub data InjectorRequest : Type 0 where
  hello : InjectorRequest
  begin_session : Text → Option Text → ℤ → Text → Bool → InjectorRequest
  apply_state : Text → ℤ → Text → InjectorRequest
  finish_session : Text → ℤ → InjectorRequest
  query_session : Text → InjectorRequest
  probe_target : InjectorRequest
  cancel_invalid_session : Text → InjectorRequest

pub data InjectorResponse : Type 0 where
  hello : ℕ → Text → Text → Bool → InjectorResponse
  session_begun : Text → InjectorResponse
  applied : ℤ → InjectorResponse
  finished : ℤ → InjectorResponse
  session_active : Text → ℤ → Text → InjectorResponse
  session_finished : Text → ℤ → Text → InjectorResponse
  session_missing : InjectorResponse
  target_ready : Text → ℕ → InjectorResponse
  cancelled : InjectorResponse
  target_not_foreground : Text → InjectorResponse
  target_invalid target_modified target_submitted target_unsupported : InjectorResponse
  tsf_unavailable injection_unknown invalid_request : InjectorResponse
