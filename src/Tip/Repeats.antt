-- ===== src/Tip/Repeats.antt =====
-- Proofs about windows/flowtype-core/src/tip.rs: a command that comes again.
use flow_type.Prelude.{
  Text, ℤ, ◌≡◌, ◌≢◌, ◌↔◌, ◌⊎◌, Bool, true, false, some, arith, inl, inr, Option-cases, text_eq_iff,
  text_eq_refl, int_eq_iff, int_eq_refl, ◌<ℤ◌,
}
use flow_type.Tip.Model.{TipSessionModel, ok, begin, update}

-- A begin or an update that was accepted is accepted again, and the repetition changes nothing.
pub accepted_again :
    (m : TipSessionModel) (id : Text) (seq : ℤ) (text : Text)
    → ((begin m id seq text).1 ≡ ok tt
        → begin (begin m id seq text).0 id seq text ≡ ((begin m id seq text).0, ok tt))
      × ((fresh : Bool)
          → (update m id seq text).1 ≡ ok fresh
          → update (update m id seq text).0 id seq text ≡ ((update m id seq text).0, ok false))
unfolding begin update
accepted_again m id seq text = (
  λ h. ground (arith, text_eq_refl id),
  λ b h. ground (arith, text_eq_refl text, int_eq_refl seq),
)

-- An update changes the model exactly when it is for the session, which no edit has taken over, and
-- has a larger number; it then holds that number and text, and any other update leaves the model.
update_lem :
    (m : TipSessionModel) (id : Text) (seq : ℤ) (text : Text)
    → (((update m id seq text).1 ≡ ok true)
        ↔ ((m.session_id ≡ some id) × (m.target_modified ≡ false) × (m.sequence <ℤ seq)))
      × ((((update m id seq text).1 ≡ ok true)
            × ((update m id seq text).0 ≡ record m { sequence = seq; text = text }))
          ⊎ (((update m id seq text).1 ≢ ok true) × ((update m id seq text).0 ≡ m)))
unfolding update
update_lem m id seq text = elim (Option-cases m.session_id) [
  | inl e ↦ (ground arith, ground arith)
  | inr (held, e) ↦ (
    ground (arith, text_eq_iff held id),
    ground (arith, text_eq_iff held id, int_eq_iff seq m.sequence),
  )
]
