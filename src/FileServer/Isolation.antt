-- ===== src/FileServer/Isolation.antt =====
-- Proofs about windows/flowtype-app/src/file_transfer_server.rs: a phone's calls leave the batches of
-- the others, and a batch that has ended stays so and is closed to every bearer.
use flow_type.Prelude.{
  Text, ℕ, ◌≡◌, ◌≢◌, inl, inr, refl, sym, ◌∙◌, ap, subst, arith, true, false, Option, none, some,
  List, [], ◌∷◌, All, Option-cases, get,
}
use flow_type.FileTransfer.States.{is_terminal}
use flow_type.FileStore.Batches.{BatchRecord, Disk, Store, on_disk, load_batch}
use flow_type.FileStore.Records.{Later, load_batch_lem}
use flow_type.FileServer.Coordinator.{Coordinator}
use flow_type.FileServer.Access.{
  Call, control, revoke, request, without_expired, grant_allows, authorize, perform, perform_all,
}
use flow_type.FileServer.Changes.{keeps}
use flow_type.FileServer.Calls.{phone_of, CallChanged, perform-CallChanged}

-- What becomes of a record by one call: `Later` for the phone of the call.
abbrev Kept : Option Text → BatchRecord → BatchRecord → Type 0
Kept none a b = b ≡ a
Kept (some q) a b = Later q a b

call-keeps :
    (call : Call) (s t : Store)
    → CallChanged call s t
    → (id : Text) (a : BatchRecord) → on_disk id s ≡ some a
    → (b : BatchRecord) × (on_disk id t ≡ some b) × Kept (phone_of call) a b
call-keeps (control m i message phone) s t w id a h = keeps m.disk phone s t w id a h
call-keeps (revoke m phone) s t w id a h = keeps m.disk phone s t w id a h
call-keeps (request d now i bearer) s t w id a h = (a, ap (on_disk id) w ∙ h, refl)

foreign_call : (p : Option Text) (a b : BatchRecord) → p ≢ some a.phone_id → Kept p a b → b ≡ a
foreign_call none a b n k = k
foreign_call (some q) a b n k = k.foreign (λ e. n (ap some (sym e)))

closed_call :
    (p : Option Text) (a b : BatchRecord)
    → Kept p a b
    → is_terminal a.state ≡ true
    → b.state ≡ a.state
closed_call none a b k h = ap (λ x. x.state) k
closed_call (some q) a b k h = k.closed h

-- Whatever messages of other phones, revocations of them and authorizations of requests come, the
-- stored record of a batch stays as it is.
pub perform_all-foreign :
    (digest : Text → List ℕ) (calls : List Call) (c : Coordinator) (id : Text) (a : BatchRecord)
    → on_disk id c.store ≡ some a
    → All (λ call. phone_of call ≢ some a.phone_id) calls
    → on_disk id (perform_all digest calls c).store ≡ some a
unfolding perform_all
perform_all-foreign digest [] c id a h f = h
perform_all-foreign digest (call ∷ calls) c id a h f =
    let k =
      call-keeps call c.store (perform digest call c).store (perform-CallChanged digest call c) id a
        h in
    perform_all-foreign digest calls (perform digest call c) id a
      (k.1 ∙ ap some (foreign_call (phone_of call) a k.0 f.0 k.2)) f.1

shut :
    (digest : Text → List ℕ) (d : Disk) (now : ℕ) (id bearer : Text) (c : Coordinator)
    (a : BatchRecord)
    → on_disk id c.store ≡ some a
    → is_terminal a.state ≡ true
    → (authorize digest d now id bearer c).0 ≡ false
unfolding authorize grant_allows without_expired
shut digest d now id bearer c a h t = elim (Option-cases (get id (without_expired now c).tickets)) [
  | inl e ↦ ground (arith, e)
  | inr (g, e) ↦ elim (Option-cases (load_batch d id c.store)) [
    | inl f ↦ ground (arith, e, f)
    | inr (b, f) ↦
        let same_batch : a ≡ b = ground (arith, sym h ∙ (load_batch_lem d id c.store b f).0) in
        let ended = subst (λ x. is_terminal x.state ≡ true) same_batch t in
        ground (arith, e, f, ended)
  ]
]

-- A batch that is completed, partly failed or canceled stays in that state whatever messages,
-- revocations and authorizations of requests follow, and no bearer token opens it any more.
pub perform_all-ended :
    (digest : Text → List ℕ) (calls : List Call) (c : Coordinator) (id : Text) (a : BatchRecord)
    → on_disk id c.store ≡ some a
    → is_terminal a.state ≡ true
    → ((b : BatchRecord) × (on_disk id (perform_all digest calls c).store ≡ some b)
        × (b.state ≡ a.state))
      × ((d : Disk) (now : ℕ) (bearer : Text)
          → (authorize digest d now id bearer (perform_all digest calls c)).0 ≡ false)
unfolding perform_all
perform_all-ended digest [] c id a h t =
    ((a, h, refl), λ d now bearer. shut digest d now id bearer c a h t)
perform_all-ended digest (call ∷ calls) c id a h t =
    let k =
      call-keeps call c.store (perform digest call c).store (perform-CallChanged digest call c) id a
        h in
    let still = closed_call (phone_of call) a k.0 k.2 t in
    let rest =
      perform_all-ended digest calls (perform digest call c) id k.0 k.1
        (subst (λ s. is_terminal s ≡ true) (sym still) t) in
    ((rest.0.0, rest.0.1, rest.0.2 ∙ still), rest.1)
