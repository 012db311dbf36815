-- ===== src/Tip.antt =====
-- windows/flowtype-core/src/tip.rs: the commands that the injector sends to the text service (TIP)
-- inside the target process, and its answers.
pub mod Model
pub mod Repeats
pub mod Composition
pub mod Service
pub mod Refines
use flow_type.Prelude.{Text, ℤ, Bool}

pub data TipCommand : Type 0 where
  begin : Text → ℤ → Text → Bool → TipCommand
  update : Text → ℤ → Text → TipCommand
  finish : Text → ℤ → TipCommand
  cancel : Text → TipCommand
  query : Text → TipCommand
  ping : TipCommand

pub data TipResponse : Type 0 where
  ready : TipResponse
  begun : Text → TipResponse
  applied : Text → ℤ → TipResponse
  finished : Text → ℤ → TipResponse
  cancelled : Text → TipResponse
  no_focus session_mismatch sequence_conflict composition_terminated : TipResponse
  session_active : Text → ℤ → TipResponse
  rebind_rejected edit_rejected : TipResponse
