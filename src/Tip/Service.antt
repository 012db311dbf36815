-- ===== src/Tip/Service.antt =====
-- windows/flowtype-tip/src/service.rs: the text service's controller and its commands. The message
-- window and the pipe worker are left out.
use flow_type.Prelude.{
  Text, ℤ, ℕ, Bool, true, false, not, ◌&&◌, ◌||◌, Option, none, some, is_some, ◌==◌, int_lt, int_eq,
  text_eq, if◌then◌else◌,
}
use flow_type.Tip.{
  TipCommand, TipResponse, session_mismatch, sequence_conflict, composition_terminated, no_focus,
  rebind_rejected, edit_rejected, ready,
}
use flow_type.Tip.Model.{holds}
use flow_type.Tip.Composition.{
  CompositionState, Host, EditAction, start_session, applied, clear, has_composition, request_edit,
}

pub record Controller : Type 0 where
  pub thread_manager : Bool
  pub composition : CompositionState

abbrev with_composition : Controller → CompositionState → Controller
with_composition c s = record c { composition = s }

-- `focused_context`
abbrev focused_context : Host → Controller → Option ℕ
focused_context h c = if c.thread_manager then h.focused else none

abbrev is_context : ℕ → Option ℕ → Bool
is_context f none = false
is_context f (some a) = f == a

-- `active_focused_context`, as a test
abbrev is_active_focused : Host → Controller → Bool
is_active_focused h c = elim (focused_context h c) [
  | none ↦ false
  | some f ↦ is_context f c.composition.context
]

-- The composition is ended by force, and everything forgotten.
abbrev given_up : Host → CompositionState → CompositionState
given_up h s = clear (request_edit h EditAction.force_finish s).1

abbrev begin_in :
    Host → Text → ℤ → Text → Bool → Controller → Option CompositionState → TipResponse × Controller
begin_in h id seq text attach c none =
    (edit_rejected, with_composition c (given_up h c.composition))
begin_in h id seq text attach c (some s) =
    let (ok, after) = request_edit h (EditAction.begin text attach) s in
    if ok
    then (TipResponse.begun id, with_composition c (applied seq text after))
    else (edit_rejected, with_composition c (given_up h after))

unfoldable pub begin_command : Host → Text → ℤ → Text → Bool → Controller → TipResponse × Controller
unfolding start_session applied clear request_edit
begin_command h id seq text attach c =
    if holds c.composition.session_id id
    then (if c.composition.target_modified then composition_terminated else TipResponse.begun id, c)
    else if is_some c.composition.session_id
    then (rebind_rejected, c)
    else elim (focused_context h c) [
      | none ↦ (no_focus, c)
      | some context ↦ begin_in h id seq text attach c (start_session h id context c.composition)
    ]

abbrev updated : Text → ℤ → Text → Controller → Bool × CompositionState → TipResponse × Controller
updated id seq text c (ok, after) =
    if ok then (TipResponse.applied id seq, with_composition c (applied seq text after)) else (
      if after.target_modified then composition_terminated else edit_rejected,
      with_composition c after,
    )

unfoldable pub update_command : Host → Text → ℤ → Text → Controller → TipResponse × Controller
unfolding applied request_edit text_eq
update_command h id seq text c =
    if not (holds c.composition.session_id id)
    then (session_mismatch, c)
    else if c.composition.target_modified
    then (composition_terminated, c)
    else if int_lt seq c.composition.sequence
    then (TipResponse.applied id c.composition.sequence, c)
    else if int_eq seq c.composition.sequence
    then (
      if text_eq c.composition.text text then TipResponse.applied id seq else sequence_conflict,
      c,
    )
    else if not (is_active_focused h c)
    then (no_focus, c)
    else updated id seq text c (request_edit h (EditAction.update text) c.composition)

unfoldable pub finish_command : Host → Text → ℤ → Controller → TipResponse × Controller
unfolding clear request_edit
finish_command h id seq c =
    if not (holds c.composition.session_id id) || not (int_eq c.composition.sequence seq)
    then (session_mismatch, c)
    else if c.composition.target_modified
    then (composition_terminated, c)
    else if not (is_some c.composition.context)
    then (composition_terminated, c)
    else let (ok, after) = request_edit h EditAction.finish c.composition in
      if ok
      then (TipResponse.finished id seq, with_composition c (clear after))
      else (edit_rejected, with_composition c after)

unfoldable pub cancel_command : Host → Text → Controller → TipResponse × Controller
unfolding clear request_edit has_composition
cancel_command h id c = if not (holds c.composition.session_id id) then (session_mismatch, c) else (
  TipResponse.cancelled id,
  with_composition c (
      if has_composition c.composition && is_some c.composition.context
      then given_up h c.composition
      else clear c.composition),
)

unfoldable pub query_command : Text → Controller → TipResponse
query_command id c =
    if holds c.composition.session_id id
    then (if c.composition.target_modified
        then composition_terminated
        else TipResponse.session_active id c.composition.sequence)
    else session_mismatch

unfoldable pub handle_command : Host → TipCommand → Controller → TipResponse × Controller
unfolding begin_command update_command finish_command cancel_command query_command
handle_command h TipCommand.ping c = (ready, c)
handle_command h (TipCommand.begin id seq text attach) c = begin_command h id seq text attach c
handle_command h (TipCommand.update id seq text) c = update_command h id seq text c
handle_command h (TipCommand.finish id seq) c = finish_command h id seq c
handle_command h (TipCommand.cancel id) c = cancel_command h id c
handle_command h (TipCommand.query id) c = (query_command id c, c)

unfoldable pub deactivate : Host → Controller → Controller
unfolding clear request_edit has_composition
deactivate h c = record {
  thread_manager = false;
  composition =
      if has_composition c.composition && is_some c.composition.context
      then given_up h c.composition
      else clear c.composition;
}

unfoldable pub activate : Host → Controller → Controller
unfolding deactivate
activate h c = record (deactivate h c) { thread_manager = true }
