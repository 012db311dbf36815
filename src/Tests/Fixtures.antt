-- ===== src/Tests/Fixtures.antt =====
-- A phone, a session and a window for the tests.
use flow_type.Prelude.{pos, ℕ, true, false, Option, none, some, List, [], codes, map}
use flow_type.Tip.{TipCommand, TipResponse}
use flow_type.Injector.Session.{
  TargetWindow, TipKey, begun, Env, ActiveSession, CompletedSession, State,
}
use flow_type.Network.World.{World, waiting_for_phone}
use flow_type.Network.Dispatcher.{Served, Round, answers}
use flow_type.Protocol.{Snapshot, Resume, ClientSessionState}

abbrev pub window : TargetWindow
window = record { handle = 7; process_id = 100 }

abbrev pub key : TipKey
key = record { process_id = 100; thread_id = 5; generation = 1 }

-- A text service that does what it is told.
abbrev pub answer : TipKey → TipCommand → Option TipResponse
answer k (TipCommand.begin id seq text attach) = some (TipResponse.begun id)
answer k (TipCommand.update id seq text) = some (TipResponse.applied id seq)
answer k (TipCommand.finish id seq) = some (TipResponse.finished id seq)
answer k (TipCommand.cancel id) = some (TipResponse.cancelled id)
answer k (TipCommand.query id) = some (TipResponse.session_active id (pos 1))
answer k TipCommand.ping = some TipResponse.ready

abbrev pub env_at : ℕ → Env
env_at epoch = record {
  instance_id = codes "i";
  executable_path = codes "flowtype.exe";
  elevated = false;
  capture_foreground = some window;
  title = λ w. codes "Notes";
  thread_id = λ w. 5;
  is_valid = λ w. true;
  is_foreground = λ w. true;
  is_remote_desktop_client = λ w. false;
  is_flowtype_window = λ w. false;
  activate_for_input = λ w. true;
  activity_age_ms = λ w. 20;
  monitor_starts = true;
  epoch = epoch;
  later_epoch = epoch;
  last_event_was_return = false;
  now_ms = 5000;
  begin_for_target = λ p t id seq text attach. begun key;
  send = answer;
}

abbrev pub env : Env
env = env_at 3

abbrev pub session_a : ActiveSession
session_a = record {
  id = codes "a";
  sequence = pos 1;
  text = codes "hi";
  target = window;
  tip = key;
  input_epoch = 3;
  last_tip_query = 4900;
}

abbrev pub completed_a : CompletedSession
completed_a = record { id = codes "a"; sequence = pos 2; text = codes "hi!" }

abbrev pub active_state : State
active_state = record { session = some session_a; completed = none; sent = [] }

abbrev pub completed_state : State
completed_state = record { session = none; completed = some completed_a; sent = [] }

-- The injector answers at once.
abbrev pub answered_in : Env → Round
answered_in e = record {
  connects = true;
  first = answers e;
  reconnects = true;
  same_instance = true;
  query = answers e;
  again = answers e;
}

abbrev pub served : List Env → State → World Served
served envs s = record {
  injector = record { rounds = map answered_in envs; state = s; connected = true };
  status = record {
    summary = waiting_for_phone;
    connected_phone = some (codes "phone");
    target_name = none;
    last_error = none;
  };
  frames = [];
  link = 4;
  pending_switch = none;
}

abbrev pub snapshot : Snapshot
snapshot = record {
  version = 2;
  phone_id = codes "phone";
  session_id = codes "a";
  sequence = pos 2;
  full_text = codes "hi!";
  replaces_session_id = none;
  attach_existing = false;
}

abbrev pub resume : Resume
resume = record {
  version = 2;
  phone_id = codes "phone";
  session_id = codes "a";
  last_ack_sequence = pos 1;
  sequence = pos 2;
  full_text = codes "hi!";
  session_state = ClientSessionState.finishing;
}
