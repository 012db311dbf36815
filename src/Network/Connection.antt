-- ===== src/Network/Connection.antt =====
-- windows/flowtype-app/src/network_server.rs: what a connection keeps between its messages, the poll
-- of the monitored session, and the cleanup when it ends. File and image messages are left out, and of the
-- others the limit of their size, `mark_probe_connection` and the status of `claim_active_connection`.
use flow_type.Prelude.{
  Text, Bool, true, false, not, ◌&&◌, ◌||◌, Option, none, some, List, [], ◌∷◌, is_empty,
  is_some_and, text_eq, if◌then◌else◌,
}
use flow_type.Injector.Ipc.{InjectorRequest, query_session, cancel_invalid_session, session_active}
use flow_type.Protocol.{ClientMessage}
use flow_type.Network.World.{
  World, Flow, done, broken, Reply, response, failure, mark_input_finished, send_injector_failure,
  send_injector_state,
}
use flow_type.Network.Messages.{ask, handle_client_message, is_finishing}

pub data SessionTransition : Type 0 where
  nothing : SessionTransition
  active complete : Text → SessionTransition

-- `SessionTransition::from_message`
unfoldable pub from_message : ClientMessage → SessionTransition
from_message (ClientMessage.start s) = active s.session_id
from_message (ClientMessage.update s) = active s.session_id
from_message (ClientMessage.finish s) = complete s.session_id
from_message (ClientMessage.resume r) =
    if is_finishing r.session_state then complete r.session_id else active r.session_id
from_message (ClientMessage.cancel c) = complete c.session_id
from_message _ = nothing

-- The connection's share of the state. `active_lease` tells that it has claimed the input.
pub record Connection (S : Type 0) : Type 0 where
  pub world : World S
  pub input_session : Option Text
  pub monitored_session : Option Text
  pub active_lease : Bool

abbrev tracked : SessionTransition → Option Text → Option Text
tracked nothing o = o
tracked (active id) o = some id
tracked (complete id) o = some id

-- `input_session.complete`, for a message that completes a session.
abbrev completed : SessionTransition → Option Text → Option Text
completed (complete id) o = if is_some_and o (λ t. text_eq t id) then none else o
completed _ o = o

abbrev monitored : ClientMessage → Option Text → Option Text
monitored (ClientMessage.start s) o = if is_empty s.session_id then o else some s.session_id
monitored (ClientMessage.update s) o = if is_empty s.session_id then o else some s.session_id
monitored (ClientMessage.finish s) o = none
monitored (ClientMessage.resume r) o =
    if not (is_finishing r.session_state) && not (is_empty r.session_id)
    then some r.session_id
    else none
monitored _ o = o

-- Messages that leave the input where it is.
abbrev is_control_message : ClientMessage → Bool
is_control_message (ClientMessage.probe p) = true
is_control_message (ClientMessage.health_check h) = true
is_control_message (ClientMessage.switch_ack a) = true
is_control_message _ = false

-- A message, with whether another connection has claimed the input since this one did; a tick of
-- the poll.
pub data Event : Type 0 where
  incoming : ClientMessage → Bool → Event
  tick : Event

module _ {S : Type 0} (request : InjectorRequest → S → Reply × S) (pc_id phone : Text) where
  unfoldable pub after_message : ClientMessage → Connection S → Flow × World S → Flow × Connection S
  unfolding from_message
  after_message m c (broken, w) = (broken, record c { world = w })
  after_message m c (done, w) =
      (done, record c { world = w; input_session = completed (from_message m) c.input_session })

  unfoldable pub on_text : ClientMessage → Bool → Connection S → Flow × Connection S
  unfolding after_message from_message
  on_text m superseded c =
      let lease = c.active_lease || not (is_control_message m) in
      if c.active_lease && superseded
      then (broken, record c { active_lease = lease })
      else after_message m
          (record c {
            active_lease = lease;
            input_session = tracked (from_message m) c.input_session;
            monitored_session = monitored m c.monitored_session;
          })
          (handle_client_message request pc_id phone m c.world)

  unfoldable pub on_tick : Connection S → Flow × Connection S
  unfolding ask send_injector_failure send_injector_state
  on_tick c = elim c.monitored_session [
    | none ↦ (done, c)
    | some id ↦
        if not c.active_lease
        then (done, c)
        else let (reply, w) = ask request (query_session id) c.world in
          elim reply [
            | response (session_active i n t) ↦ (done, record c { world = w })
            | response r ↦
                let (flow, w') = send_injector_state id r w in
                (flow, record c { world = w'; monitored_session = none })
            | failure f ↦
                let (flow, w') = send_injector_failure id f w in
                (flow, record c { world = w'; monitored_session = none })
          ]
  ]

  unfoldable pub on_event : Event → Connection S → Flow × Connection S
  unfolding on_text on_tick
  on_event (incoming m superseded) c = on_text m superseded c
  on_event tick c = on_tick c

  -- The loop, up to the end of the events or the first error.
  unfoldable pub serve : List Event → Connection S → Connection S
  unfolding on_event
  serve [] c = c
  serve (e ∷ rest) c =
      let (flow, c') = on_event e c in
      let after = serve rest c' in elim flow [ broken ↦ c' | done ↦ after ]

  -- `ConnectionInputSession::drop`, once the grace period is over.
  unfoldable pub clean_up : Bool → Connection S → World S
  unfolding mark_input_finished
  clean_up has_replacement c = elim c.input_session [
    | none ↦ c.world
    | some id ↦
        if has_replacement
        then c.world
        else mark_input_finished
            (record c.world { injector = (request (cancel_invalid_session id) c.world.injector).1 })
  ]
