-- ===== src/FileServer/Sharing.antt =====
-- windows/flowtype-app/src/file_transfer_server.rs: the requests and jobs of the data connections take the
-- coordinator's locks in any order. Each move is what is done under one lock.
use flow_type.Prelude.{Text, ℕ, Bool, List, [], ◌∷◌, any, if◌then◌else◌, is_some_and}
use flow_type.FileServer.{Answer}
use flow_type.FileServer.Operations.{
  Key, same_key, find, Coordination, may_acquire, lease, end_lease, poll_verification, finish_job,
}

-- A request looks at the verifications and then takes its lease; one that holds the lease of a
-- verification polls; a job ends; a request ends.
pub data Move : Type 0 where
  looks : Text → Text → Move
  enters : Text → Text → Move
  polls : ℕ → Key → Text → Move
  ends : Key → Answer (Unit {0}) → Move
  leaves : Key → Move

-- The coordinator, and the requests that are between the two locks of `acquire_operation`.
pub record Sharing : Type 0 where
  pub coordination : Coordination
  pub looking : List Key

unfoldable pub drop_first : Key → List Key → List Key
unfolding same_key
drop_first k [] = []
drop_first k (j ∷ rest) = let later = drop_first k rest in if same_key k j then rest else j ∷ later

unfoldable pub holds_verification : Key → Coordination → Bool
unfolding find
holds_verification key c = is_some_and (find key c.operations) (λ v. v)

unfoldable pub move : Move → Sharing → Sharing
unfolding may_acquire lease same_key drop_first holds_verification poll_verification finish_job
    end_lease
move (looks batch_id action) s =
    if may_acquire batch_id action s.coordination
    then record s { looking = (batch_id, action) ∷ s.looking }
    else s
move (enters batch_id action) s =
    if any (same_key (batch_id, action)) s.looking
    then record {
      coordination = (lease batch_id action s.coordination).1;
      looking = drop_first (batch_id, action) s.looking;
    }
    else s
move (polls now key hash) s =
    if holds_verification key s.coordination
    then record s { coordination = (poll_verification now key hash s.coordination).1 }
    else s
move (ends key r) s = record s { coordination = finish_job key r s.coordination }
move (leaves key) s = record s { coordination = end_lease key s.coordination }

unfoldable pub moves : List Move → Sharing → Sharing
unfolding move
moves [] s = s
moves (m ∷ ms) s = moves ms (move m s)
