-- ===== src/Delivery/Lifecycle.antt =====
-- The state machine of one delivery: what a mark may change, and that it happens once.
use srosha.Prelude.{
  ℕ, ◌≡◌, refl, ◌≢◌, ◌⊎◌, inl, inr, Bool, true, false, List, [], ◌∷◌, Text, arith, Bool-cases,
}
use srosha.Errs.{Error, nil}
use srosha.Delivery.{
  Time, Status, pending, sent, failed, is_settled, FailureReason, no_failure, reason_valid, Detail,
  Delivery, mark_sent, mark_failed,
}

-- One call of `MarkSent` or `MarkFailed`.
pub data Mark : Type 0 where
  as_sent : Text → ℕ → Time → Mark
  as_failed : FailureReason → Detail → ℕ → Time → Mark

unfoldable pub mark : Mark → Delivery → Delivery × Error
unfolding mark_sent mark_failed
mark (as_sent p n t) d = mark_sent p n t d
mark (as_failed r s n t) d = mark_failed r s n t d

-- The errors are dropped, as by workers that each hold the same copy.
pub mark_all : List Mark → Delivery → Delivery
mark_all [] d = d
mark_all (m ∷ ms) d = mark_all ms (mark m d).0

-- The fields that no mark may change.
pub record SameMessage (d c : Delivery) : Type 0 where
  pub same_id : c.id ≡ d.id
  pub same_notification : c.notification_id ≡ d.notification_id
  pub same_recipient : c.recipient ≡ d.recipient
  pub same_sender : c.sender_name ≡ d.sender_name
  pub same_notified : c.notified_at ≡ d.notified_at

-- A row that does not contradict itself: pending with nothing recorded, sent with no reason, or
-- failed with a valid reason and no provider id.
abbrev pub IsCoherent : Delivery → Type 0
IsCoherent d =
    ((d.status ≡ pending) × (d.failure_reason ≡ no_failure) × (d.provider_message_id ≡ []))
    ⊎ (((d.status ≡ sent) × (d.failure_reason ≡ no_failure))
        ⊎ ((d.status ≡ failed)
            × (reason_valid d.failure_reason ≡ true)
            × (d.provider_message_id ≡ [])))

pending-cases : (s : Status) → (s ≡ pending) ⊎ (s ≢ pending)
pending-cases pending = inl refl
pending-cases s = inr (λ h. cc)

-- A failure wants one of the known reasons.
abbrev pub is_named : Mark → Bool
is_named (as_sent p n t) = true
is_named (as_failed r s n t) = reason_valid r

-- A mark is accepted exactly when the delivery is pending and the reason, if any, is a known one:
-- then the delivery is settled, with its identifiers, recipient, sender and announcement as they
-- were. Otherwise an error is returned and nothing changes.
pub mark_lem :
    (m : Mark) (d : Delivery)
    → (((mark m d).1 ≡ nil)
        × (d.status ≡ pending)
        × (is_named m ≡ true)
        × (is_settled (mark m d).0.status ≡ true)
        × SameMessage d (mark m d).0)
      ⊎ (((mark m d).1 ≢ nil) × ((mark m d).0 ≡ d) × ((d.status ≢ pending) ⊎ (is_named m ≡ false)))
unfolding mark
mark_lem (as_sent p n t) d = elim (pending-cases d.status) [
  | inl h ↦ inl (ground arith, h, refl, ground arith, ground arith)
  | inr h ↦ inr (ground arith, ground arith, inl h)
]
mark_lem (as_failed r s n t) d = elim (pending-cases d.status) [
  | inl h ↦ elim (Bool-cases (reason_valid r)) [
    | inl v ↦ inl (ground arith, h, v, ground arith, ground arith)
    | inr v ↦ inr (ground arith, ground arith, inr v)
  ]
  | inr h ↦ inr (ground arith, ground arith, inl h)
]

-- A mark keeps a delivery from contradicting itself: pending with nothing recorded, sent without
-- a reason, or failed with a valid reason and no provider id.
pub mark-IsCoherent : (m : Mark) (d : Delivery) → IsCoherent d → IsCoherent (mark m d).0
unfolding mark
mark-IsCoherent (as_sent p n t) d h = ground arith
mark-IsCoherent (as_failed r s n t) d h = ground arith

settled-mark_all : (ms : List Mark) (d : Delivery) → d.status ≢ pending → mark_all ms d ≡ d
unfolding mark_all
settled-mark_all [] d h = refl
settled-mark_all (m ∷ ms) d h =
    let same : (mark m d).0 ≡ d = ground (arith, mark_lem m d) in rw same (settled-mark_all ms d h)

-- The first mark that is accepted decides: after it any further marks, by whomever and of
-- whatever outcome, leave the delivery as that one left it.
pub mark_all-first :
    (m : Mark) (ms : List Mark) (d : Delivery)
    → (mark m d).1 ≡ nil
    → mark_all (m ∷ ms) d ≡ (mark m d).0
unfolding mark_all
mark_all-first m ms d h = settled-mark_all ms (mark m d).0 (ground (arith, mark_lem m d))
