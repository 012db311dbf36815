-- ===== src/Tests/TextService.antt =====
-- The theorems about the text service and the snapshots, at a short session.
use flow_type.Prelude.{
  Text, codes, ℕ, ◌-◌, ◌≤◌, ◌≡◌, refl, ap, pos, true, false, some, List, [], ◌∷◌, length,
}
use flow_type.Tip.{TipCommand}
use flow_type.Tip.Composition.{Host, empty}
use flow_type.Tip.Service.{Controller, handle_command}
use flow_type.Tip.Refines.{session_of, IsSound, Answers, handle_command-Answers}
use flow_type.Snapshots.Transitions.{
  concat, plan_transition, apply_transition, Share, plan_transition_lem,
}

abbrev willing : Host
willing = record {
  focused = some 1;
  advises = true;
  runs = true;
  finds_range = true;
  attached = false;
  starts = true;
  matches = λ t. some true;
  sets_text = true;
  sets_caret = true;
  ends = true;
  start_terminates = false;
  text_terminates = false;
  end_terminates = false;
}

abbrev in_session : Controller
in_session = record {
  thread_manager = true;
  composition = record empty {
    session_id = some (codes "s");
    sequence = pos 1;
    text = codes "a";
    context = some 1;
    composition = true;
    range = true;
    edit_sink = true;
  };
}

abbrev longer : TipCommand
longer = TipCommand.update (codes "s") (pos 2) (codes "ab")

handle_command-Answers_example :
    Answers longer
      (handle_command willing longer in_session).0
      (session_of in_session)
      (session_of (handle_command willing longer in_session).1)
    × IsSound (handle_command willing longer in_session).1
handle_command-Answers_example = handle_command-Answers willing longer in_session tt

abbrev letters : Text → List Text
letters [] = []
letters (c ∷ s) = (c ∷ []) ∷ letters s

letters_joined : (s : Text) → concat (letters s) ≡ s
letters_joined [] = refl
letters_joined (c ∷ s) = ap (λ r. c ∷ r) (letters_joined s)

plan_transition_lem_example :
    (apply_transition letters
        (plan_transition letters (codes "helo") (codes "hello"))
        (codes "helo")
      ≡ codes "hello")
    × ((n : ℕ)
        → Share n (letters (codes "helo")) (letters (codes "hello"))
        → (plan_transition letters (codes "helo") (codes "hello")).backspaces
          ≤ length (letters (codes "helo")) - n)
plan_transition_lem_example =
    plan_transition_lem letters (codes "helo") (codes "hello") letters_joined
