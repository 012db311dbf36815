-- ===== src/Tip/Model.antt =====
-- windows/flowtype-core/src/tip.rs: `TipSessionModel`, the contract of one text-service session. A
-- method returns the new model and its result.
use flow_type.Prelude.{
  Text, ℤ, Bool, true, false, Option, none, some, [], not, ◌||◌, text_eq, int_eq, int_lt,
  if◌then◌else◌, pos, is_some, is_some_and,
}
use flow_type.Tip.{TipResponse, composition_terminated, session_mismatch, sequence_conflict}

pub record TipSessionModel : Type 0 where
  pub session_id : Option Text
  pub sequence : ℤ
  pub text : Text
  pub composition_ended : Bool
  pub target_modified : Bool

pub data Outcome {ℓ} (A : Type ℓ) : Type ℓ where
  ok : A → Outcome A
  err : TipResponse → Outcome A

-- `#[derive(Default)]`, and the state that `clear` leaves.
abbrev pub cleared : TipSessionModel
cleared = record {
  session_id = none;
  sequence = pos 0;
  text = [];
  composition_ended = false;
  target_modified = false;
}

-- `self.session_id.as_deref() == Some(session_id)`
abbrev pub holds : Option Text → Text → Bool
holds o id = is_some_and o (λ held. text_eq held id)

unfoldable pub begin : TipSessionModel → Text → ℤ → Text → TipSessionModel × Outcome (Unit {0})
begin m id seq text =
    if holds m.session_id id
    then (m, if m.target_modified then err composition_terminated else ok tt)
    else if is_some m.session_id
    then (m, err session_mismatch)
    else (
      record {
        session_id = some id;
        sequence = seq;
        text = text;
        composition_ended = false;
        target_modified = false;
      },
      ok tt,
    )

unfoldable pub update : TipSessionModel → Text → ℤ → Text → TipSessionModel × Outcome Bool
update m id seq text =
    if not (holds m.session_id id)
    then (m, err session_mismatch)
    else if m.target_modified
    then (m, err composition_terminated)
    else if int_lt seq m.sequence
    then (m, ok false)
    else if int_eq seq m.sequence
    then (m, if text_eq m.text text then ok false else err sequence_conflict)
    else (record m { sequence = seq; text = text }, ok true)

unfoldable pub terminate : TipSessionModel → TipSessionModel
terminate m = record m { target_modified = true }

unfoldable pub end_composition : TipSessionModel → TipSessionModel
end_composition m = record m { composition_ended = true }

unfoldable pub finish : TipSessionModel → Text → ℤ → TipSessionModel × Outcome (Unit {0})
finish m id seq =
    if not (holds m.session_id id) || not (int_eq m.sequence seq)
    then (m, err session_mismatch)
    else if m.target_modified
    then (m, err composition_terminated)
    else (cleared, ok tt)

unfoldable pub cancel : TipSessionModel → Text → TipSessionModel × Outcome (Unit {0})
cancel m id = if not (holds m.session_id id) then (m, err session_mismatch) else (cleared, ok tt)
