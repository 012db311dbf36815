-- ===== src/Snapshots/Applied.antt =====
-- windows/flowtype-core/src/session.rs: the state that was applied last, and what a snapshot is to it.
use flow_type.Prelude.{
  Text, ℤ, ◌≡◌, arith, Bool, false, int_lt, int_eq, text_eq, text_eq_iff, int_eq_iff, if◌then◌else◌,
}

pub record AppliedState : Type 0 where
  pub sequence : ℤ
  pub text : Text
  pub finished : Bool

pub data IncomingDisposition : Type 0 where
  apply duplicate stale conflict finished : IncomingDisposition

unfoldable pub new : ℤ → Text → AppliedState
new seq text = record { sequence = seq; text = text; finished = false }

unfoldable pub classify : AppliedState → ℤ → Text → IncomingDisposition
unfolding text_eq
classify s seq text =
    if s.finished
    then finished
    else if int_lt seq s.sequence
    then stale
    else if int_eq seq s.sequence
    then (if text_eq text s.text then duplicate else conflict)
    else apply

unfoldable pub mark_applied : ℤ → Text → Bool → AppliedState → AppliedState
mark_applied seq text is_finished s = record { sequence = seq; text = text; finished = is_finished }

-- A snapshot that is to be applied is applied; any other leaves the state.
unfoldable pub receive : ℤ → Text → Bool → AppliedState → AppliedState
unfolding classify mark_applied
receive seq text is_finished s = elim (classify s seq text) [
  | apply ↦ mark_applied seq text is_finished s
  | _ ↦ s
]

-- A snapshot is a duplicate of what it has just been applied as, and stays one however often it comes.
pub classify-receive :
    (s : AppliedState) (seq : ℤ) (text : Text)
    → classify s seq text ≡ apply
    → (classify (receive seq text false s) seq text ≡ duplicate)
      × (receive seq text false (receive seq text false s) ≡ receive seq text false s)
unfolding receive classify mark_applied
classify-receive s seq text h = (
  ground (arith, text_eq_iff text text, int_eq_iff seq seq),
  ground (arith, text_eq_iff text text, int_eq_iff seq seq),
)
