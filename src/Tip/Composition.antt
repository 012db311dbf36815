-- ===== src/Tip/Composition.antt =====
-- windows/flowtype-tip/src/composition.rs: the state of one composition, its edit sessions and its
-- sinks. What the COM calls of an edit answer, and which of them end the composition, is a record Host.
use flow_type.Prelude.{
  Text, ℤ, ℕ, pos, Bool, true, false, not, ◌&&◌, ◌||◌, Option, none, some, [], if◌then◌else◌,
  is_some,
}

pub record CompositionState : Type 0 where
  pub session_id : Option Text
  pub sequence : ℤ
  pub text : Text
  -- the identity of the `ITfContext`
  pub context : Option ℕ
  -- whether there is an `ITfComposition`, a tracked range, a subscription of the edit sink
  pub composition : Bool
  pub range : Bool
  pub edit_sink : Bool
  pub applying_remote_edit : Bool
  pub terminated : Bool
  pub target_modified : Bool

-- What the text framework answers during one command.
pub record Host : Type 0 where
  -- `focused_context`, where there is a thread manager
  pub focused : Option ℕ
  -- `AdviseSink`
  pub advises : Bool
  -- `RequestEditSession` runs the session
  pub runs : Bool
  -- the insertion range and the attached suffix
  pub finds_range : Bool
  pub attached : Bool
  pub starts : Bool
  -- the range still holds this text, with the caret at its end; `none` is an error
  pub matches : Text → Option Bool
  pub sets_text : Bool
  pub sets_caret : Bool
  pub ends : Bool
  -- the calls that end the composition by themselves
  pub start_terminates : Bool
  pub text_terminates : Bool
  pub end_terminates : Bool

abbrev pub empty : CompositionState
empty = record {
  session_id = none;
  sequence = pos 0;
  text = [];
  context = none;
  composition = false;
  range = false;
  edit_sink = false;
  applying_remote_edit = false;
  terminated = false;
  target_modified = false;
}

-- `none` where `AdviseSink` fails.
unfoldable pub start_session : Host → Text → ℕ → CompositionState → Option CompositionState
start_session h id context s =
    if not s.edit_sink && not h.advises
    then none
    else some (record s {
      edit_sink = true;
      session_id = some id;
      sequence = pos 0;
      text = [];
      context = some context;
      target_modified = false;
    })

unfoldable pub applied : ℤ → Text → CompositionState → CompositionState
applied seq text s = record s { sequence = seq; text = text }

unfoldable pub clear : CompositionState → CompositionState
clear s = empty

unfoldable pub has_composition : CompositionState → Bool
has_composition s = not s.terminated && s.composition

unfoldable pub mark_external_edit : CompositionState → CompositionState
mark_external_edit s = record s { target_modified = true }

unfoldable pub mark_terminated : CompositionState → CompositionState
mark_terminated s = record s { terminated = true; composition = false; edit_sink = false }

-- `OnCompositionTerminated`
unfoldable pub composition_terminated : CompositionState → CompositionState
unfolding mark_external_edit mark_terminated
composition_terminated s =
    mark_terminated (if not s.applying_remote_edit then mark_external_edit s else s)

-- A call that may end the composition by itself.
abbrev ended_by : Bool → CompositionState → CompositionState
ended_by terminates s = if terminates then composition_terminated s else s

abbrev matches_expected_edit_state : Host → CompositionState → Option Bool
matches_expected_edit_state h s = if s.range then h.matches s.text else none

pub data EditAction : Type 0 where
  begin : Text → Bool → EditAction
  update : Text → EditAction
  finish force_finish : EditAction

-- The text of the composition, unless it stands there already.
abbrev fill : Host → Bool → CompositionState → Bool × CompositionState
fill h present s =
    if present
    then (h.sets_caret, s)
    else (h.sets_text && h.sets_caret, ended_by h.text_terminates s)

abbrev started : Host → Bool → CompositionState → Bool × CompositionState
started h attach s =
    if not h.starts || s.terminated
    then (false, s)
    else fill h (attach && h.attached)
        (record s { composition = true; range = true; terminated = false })

unfoldable pub begin_edit : Host → Bool → CompositionState → Bool × CompositionState
unfolding composition_terminated
begin_edit h attach s =
    if not h.finds_range
    then (false, s)
    else started h attach (ended_by h.start_terminates (record s { terminated = false }))

-- `EndComposition`, where there is a composition.
abbrev end_composition : Host → CompositionState → Bool × CompositionState
end_composition h s = if s.composition then (h.ends, ended_by h.end_terminates s) else (true, s)

abbrev set_text : Host → CompositionState → Bool × CompositionState
set_text h s =
    let written = ended_by h.text_terminates s in
    (h.sets_text && not written.target_modified && h.sets_caret, written)

unfoldable pub update_edit : Host → CompositionState → Bool × CompositionState
unfolding composition_terminated mark_external_edit
update_edit h s = if s.target_modified then (false, s) else elim (matches_expected_edit_state h s) [
  | none ↦ (false, s)
  | some same ↦ if same then set_text h s else (false, (end_composition h (mark_external_edit s)).1)
]

abbrev holds : Option Bool → Bool
holds (some true) = true
holds _ = false

unfoldable pub finish_edit : Host → Bool → CompositionState → Bool × CompositionState
unfolding composition_terminated mark_terminated
finish_edit h forced s =
    if not forced && (s.target_modified || not (holds (matches_expected_edit_state h s)))
    then (false, s)
    else let (result, after) = end_composition h s in
      (result, if forced then mark_terminated after else after)

unfoldable pub do_edit_session : Host → EditAction → CompositionState → Bool × CompositionState
unfolding begin_edit update_edit finish_edit
do_edit_session h (begin text attach) s = begin_edit h attach s
do_edit_session h (update text) s = update_edit h s
do_edit_session h finish s = finish_edit h false s
do_edit_session h force_finish s = finish_edit h true s

-- `request_edit`, with its guard: `true` where the source returns `Ok`.
unfoldable pub request_edit : Host → EditAction → CompositionState → Bool × CompositionState
unfolding do_edit_session
request_edit h action s =
    if not h.runs
    then (false, record s { applying_remote_edit = false })
    else let (result, after) =
        do_edit_session h action (record s { applying_remote_edit = true }) in
      (result, record after { applying_remote_edit = false })

-- `OnEndEdit`: another edit of the document. The finish that it asks for comes later.
unfoldable pub end_edit : Host → CompositionState → CompositionState
unfolding mark_external_edit
end_edit h s =
    if not (is_some s.session_id) || s.applying_remote_edit || s.terminated || s.target_modified
    then s
    else elim (matches_expected_edit_state h s) [
      | none ↦ s
      | some same ↦ if same then s else mark_external_edit s
    ]
