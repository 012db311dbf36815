-- ===== src/FileServer/Access.antt =====
-- windows/flowtype-app/src/file_transfer_server.rs: which requests of the data connection are let in,
-- and the calls of the coordinator in any order.
use flow_type.Prelude.{
  Text, ℕ, Bool, false, not, ◌&&◌, ◌||◌, Option, none, some, List, [], ◌∷◌, ◌==◌, ltb, is_some_and,
  text_eq, if◌then◌else◌, get, retain,
}
use flow_type.FileTransfer.States.{is_terminal}
use flow_type.FileTransfer.Messages.{TransferDirection, FileClientMessage}
use flow_type.FileStore.Batches.{Disk, load_batch}
use flow_type.FileServer.Coordinator.{TicketGrant, Coordinator, Moment, revoke_phone}
use flow_type.FileServer.Offers.{handle_control}

-- The bytes that differ are found by their exclusive or, gathered over the 32 of them.
abbrev pub differs : Bool → List ℕ → List ℕ → Bool
differs d [] right = d
differs d (l ∷ left) [] = d
differs d (l ∷ left) (r ∷ right) = differs (d || not (l == r)) left right

unfoldable pub constant_time_equal : List ℕ → List ℕ → Bool
constant_time_equal left right = not (differs false left right)

abbrev pub unexpired : ℕ → TicketGrant → Bool
unexpired now g = ltb now g.expires_at_epoch_seconds

-- `tickets.retain(…)`
unfoldable pub without_expired : ℕ → Coordinator → Coordinator
unfolding retain
without_expired now c = record c { tickets = retain (unexpired now) c.tickets }

unfoldable pub ticket_is_active : ℕ → Text → Coordinator → Bool
unfolding get
ticket_is_active now id c = is_some_and (get id c.tickets) (unexpired now)

-- A message of a phone, its revocation, or the authorization of a request of the data connection.
pub data Call : Type 0 where
  control : Moment → Text → Option FileClientMessage → Text → Call
  revoke : Moment → Text → Call
  request : Disk → ℕ → Text → Text → Call

module _ (digest : Text → List ℕ) where
  unfoldable pub grant_allows : Disk → Text → Text → Coordinator → TicketGrant → Bool
  unfolding constant_time_equal load_batch is_terminal text_eq
  grant_allows d id bearer c g =
      constant_time_equal g.token_hash (digest bearer)
      && is_some_and (load_batch d id c.store)
          (λ b. text_eq b.phone_id g.phone_id && not (is_terminal b.state))

  unfoldable pub authorize : Disk → ℕ → Text → Text → Coordinator → Bool × Coordinator
  unfolding without_expired get grant_allows
  authorize d now id bearer c =
      let left = without_expired now c in
      (is_some_and (get id left.tickets) (grant_allows d id bearer left), left)

  unfoldable pub authorized_direction :
      Disk → ℕ → Text → Text → Coordinator → Option TransferDirection × Coordinator
  unfolding authorize get
  authorized_direction d now id bearer c =
      let (ok, left) = authorize d now id bearer c in
      (
        if ok then elim (get id left.tickets) [ none ↦ none | some g ↦ some g.direction ] else none,
        left,
      )

  unfoldable pub perform : Call → Coordinator → Coordinator
  unfolding handle_control revoke_phone authorize
  perform (control m id message phone) c = (handle_control digest m id message phone c).1
  perform (revoke m phone) c = revoke_phone m phone c
  perform (request d now id bearer) c = (authorize d now id bearer c).1

  unfoldable pub perform_all : List Call → Coordinator → Coordinator
  unfolding perform
  perform_all [] c = c
  perform_all (call ∷ calls) c = perform_all calls (perform call c)
