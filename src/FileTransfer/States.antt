-- ===== src/FileTransfer/States.antt =====
-- windows/flowtype-core/src/file_transfer.rs: the life of a batch and of an entry.
use flow_type.Prelude.{
  ℕ, ◌≡◌, ◌≢◌, ◌↔◌, ◌⊎◌, inl, inr, refl, Bool, true, false, ◌||◌, Option, none, some, List, [], ◌∷◌,
  arith, ◌==◌, if◌then◌else◌,
}
use flow_type.FileTransfer.{Validated, ok, err, invalid_entry}

pub data BatchState : Type 0 where
  waiting_confirmation queued preparing transferring waiting_network : BatchState
  needs_reselection completed partial_failure canceled : BatchState

abbrev index : BatchState → ℕ
index waiting_confirmation = 0
index queued = 1
index preparing = 2
index transferring = 3
index waiting_network = 4
index needs_reselection = 5
index completed = 6
index partial_failure = 7
index canceled = 8

-- `==` of the derived `PartialEq`.
abbrev pub same_state : BatchState → BatchState → Bool
same_state a b = index a == index b

abbrev one_of : BatchState → List BatchState → Bool
one_of s [] = false
one_of s (t ∷ ts) = same_state s t || one_of s ts

unfoldable pub is_terminal : BatchState → Bool
is_terminal s = one_of s (completed ∷ partial_failure ∷ canceled ∷ [])

abbrev successors : BatchState → List BatchState
successors waiting_confirmation = queued ∷ canceled ∷ []
successors queued = preparing ∷ waiting_network ∷ canceled ∷ []
successors preparing =
    transferring ∷ waiting_network ∷ needs_reselection ∷ partial_failure ∷ canceled ∷ []
successors transferring =
    waiting_network ∷ needs_reselection ∷ completed ∷ partial_failure ∷ canceled ∷ []
successors waiting_network = preparing ∷ transferring ∷ needs_reselection ∷ canceled ∷ []
successors needs_reselection = preparing ∷ canceled ∷ []
successors completed = []
successors partial_failure = []
successors canceled = []

unfoldable pub can_transition_to : BatchState → BatchState → Bool
can_transition_to s next = if same_state s next then true else one_of next (successors s)

-- A sequence of state updates, as `FileTransferStore::update_state` lets them through: `none` where
-- one is refused.
unfoldable pub run : BatchState → List BatchState → Option BatchState
run s [] = some s
run s (next ∷ rest) = let after = run next rest in if can_transition_to s next then after else none

-- Updates that are let through from a completed, partly failed or canceled batch leave its state.
pub run-terminal :
    (s t : BatchState) (updates : List BatchState)
    → is_terminal s ≡ true
    → run s updates ≡ some t
    → t ≡ s
unfolding run is_terminal can_transition_to
run-terminal s t [] k h = ground arith
run-terminal s t (next ∷ rest) k h = ground (arith, run-terminal next t rest)

abbrev pub Includes : BatchState → List BatchState → Type 0
Includes s [] = ⊥
Includes s (t ∷ ts) = (t ≡ s) ⊎ Includes s ts

-- A batch that waits for the user's confirmation stays there or is canceled, unless it is queued
-- in between.
run-confirmed :
    (t : BatchState) (updates : List BatchState)
    → run waiting_confirmation updates ≡ some t
    → (t ≡ waiting_confirmation) ⊎ (t ≡ canceled) ⊎ Includes queued updates
unfolding run can_transition_to
run-confirmed t [] h = ground arith
run-confirmed t (waiting_confirmation ∷ rest) h = ground (arith, run-confirmed t rest)
run-confirmed t (queued ∷ rest) h = inr (inr (inl refl))
run-confirmed t (canceled ∷ rest) h =
    inr (inl (run-terminal canceled t rest (unfold is_terminal in refl) (ground arith)))
run-confirmed t (preparing ∷ rest) h = ground arith
run-confirmed t (transferring ∷ rest) h = ground arith
run-confirmed t (waiting_network ∷ rest) h = ground arith
run-confirmed t (needs_reselection ∷ rest) h = ground arith
run-confirmed t (completed ∷ rest) h = ground arith
run-confirmed t (partial_failure ∷ rest) h = ground arith

-- Updates that complete the batch, from a state in which it can still run.
abbrev to_completion : BatchState → List BatchState
to_completion waiting_confirmation = queued ∷ preparing ∷ transferring ∷ completed ∷ []
to_completion queued = preparing ∷ transferring ∷ completed ∷ []
to_completion transferring = completed ∷ []
to_completion preparing = transferring ∷ completed ∷ []
to_completion waiting_network = transferring ∷ completed ∷ []
to_completion needs_reselection = preparing ∷ transferring ∷ completed ∷ []
to_completion _ = []

to_completion_lem :
    (s : BatchState) → s ≢ partial_failure → s ≢ canceled → run s (to_completion s) ≡ some completed
unfolding run can_transition_to
to_completion_lem waiting_confirmation p c = refl
to_completion_lem partial_failure p c = absurd (p refl)
to_completion_lem canceled p c = absurd (c refl)
to_completion_lem _ p c = refl

not_completed_from :
    (s : BatchState) (updates : List BatchState)
    → run s updates ≡ some completed
    → (s ≢ partial_failure) × (s ≢ canceled)
unfolding is_terminal
not_completed_from s updates h = (
  λ e. ground (arith, run-terminal partial_failure completed updates refl),
  λ e. ground (arith, run-terminal canceled completed updates refl),
)

can_cancel_iff :
    (s : BatchState)
    → (can_transition_to s canceled ≡ true) ↔ ((is_terminal s ≡ false) ⊎ (s ≡ canceled))
unfolding is_terminal can_transition_to
can_cancel_iff s = ground arith

-- Some updates complete a batch exactly when it is not failed or canceled; and it can be canceled
-- exactly when it is not terminal, or canceled already.
completes_iff :
    (s : BatchState)
    → (((updates : List BatchState) × (run s updates ≡ some completed))
        ↔ ((s ≢ partial_failure) × (s ≢ canceled)))
      × ((can_transition_to s canceled ≡ true) ↔ ((is_terminal s ≡ false) ⊎ (s ≡ canceled)))
completes_iff s = (
  (λ u. not_completed_from s u.0 u.1, λ n. (to_completion s, to_completion_lem s n.0 n.1)),
  can_cancel_iff s,
)

-- `EntryState`, with the byte that stands for it in a progress record.
pub data EntryState : Type 0 where
  pending transferring waiting_network needs_reselection completed failed canceled : EntryState

-- `state as u8`
abbrev pub entry_byte : EntryState → ℕ
entry_byte EntryState.pending = 0
entry_byte EntryState.transferring = 1
entry_byte EntryState.waiting_network = 2
entry_byte EntryState.needs_reselection = 3
entry_byte EntryState.completed = 4
entry_byte EntryState.failed = 5
entry_byte EntryState.canceled = 6

abbrev pub same_entry_state : EntryState → EntryState → Bool
same_entry_state a b = entry_byte a == entry_byte b

unfoldable pub entry_state_from : ℕ → Validated EntryState
entry_state_from value =
    if value == 0
    then ok EntryState.pending
    else if value == 1
    then ok EntryState.transferring
    else if value == 2
    then ok EntryState.waiting_network
    else if value == 3
    then ok EntryState.needs_reselection
    else if value == 4
    then ok EntryState.completed
    else if value == 5
    then ok EntryState.failed
    else if value == 6
    then ok EntryState.canceled
    else err invalid_entry

pub entry_state_from_iff :
    (value : ℕ) (s : EntryState) → (entry_state_from value ≡ ok s) ↔ (entry_byte s ≡ value)
unfolding entry_state_from
entry_state_from_iff value s = ground arith
