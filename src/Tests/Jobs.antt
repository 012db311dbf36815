-- ===== src/Tests/Jobs.antt =====
-- The theorems about leases and verification jobs, where one entry is verified; and what a poll between the
-- two locks of another request does.
use flow_type.Prelude.{codes, ◌≡◌, refl, arith, true, false, some, List, [], ◌∷◌, is_some, text_eq}
use flow_type.FileServer.{answered}
use flow_type.FileServer.Operations.{
  Key, same_key, find, without, keeping, may_acquire, lease, end_lease, with_room, start_job,
  poll_verification,
}
use flow_type.FileServer.Sharing.{
  Move, looks, enters, polls, ends, leaves, Sharing, drop_first, holds_verification, move, moves,
}
use flow_type.FileServer.Shared.{
  IsShared, IsUndisturbed, IsCalm, moves-IsShared, moves-IsUndisturbed,
}

abbrev quiet : Sharing
quiet = record { coordination = record { operations = []; verifications = [] }; looking = [] }

abbrev entry : Key
entry = (codes "b", codes "e")

abbrev verified : List Move
verified =
    looks (codes "b") (codes "verify/e")
    ∷ enters (codes "b") (codes "verify/e")
    ∷ polls 5 entry (codes "hash")
    ∷ leaves entry
    ∷ looks (codes "b") (codes "entries/e")
    ∷ ends entry (answered tt)
    ∷ looks (codes "b") (codes "entries/f")
    ∷ enters (codes "b") (codes "entries/f")
    ∷ []

quiet-IsShared : IsShared quiet
quiet-IsShared = record { apart = tt; few = omega arith }

moves-IsShared_example : IsShared (moves verified quiet)
moves-IsShared_example = moves-IsShared verified quiet quiet-IsShared

calm : IsCalm verified quiet
unfolding move may_acquire lease same_key drop_first holds_verification find text_eq
calm = (tt, (tt, (refl, (tt, (tt, (tt, (tt, (tt, tt))))))))

moves-IsUndisturbed_example : IsUndisturbed (moves verified quiet)
moves-IsUndisturbed_example =
    moves-IsUndisturbed verified quiet quiet-IsShared (record { working = tt; coming = tt }) calm

-- An upload that looked before the job was there gets the lease beside it.
beside_a_job :
    let c =
      (moves
        (looks (codes "b") (codes "entries/e")
          ∷ looks (codes "b") (codes "verify/e")
          ∷ enters (codes "b") (codes "verify/e")
          ∷ polls 5 entry (codes "hash")
          ∷ leaves entry
          ∷ enters (codes "b") (codes "entries/e")
          ∷ [])
        quiet).coordination in
    (find entry c.operations ≡ some false) × (is_some (find entry c.verifications) ≡ true)
unfolding moves move may_acquire lease same_key drop_first holds_verification find text_eq
    poll_verification start_job with_room keeping without end_lease
beside_a_job = (refl, refl)
