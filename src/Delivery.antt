-- ===== src/Delivery.antt =====
-- internal/core/domain/delivery: status.go, entity.go and types.go. One message to one recipient,
-- and the state machine that keeps a redelivered message from being recorded twice. A moment is
-- the number of nanoseconds since Go's zero time, so `IsZero` is the number 0.
pub mod Lifecycle
pub mod Opening
use srosha.Prelude.{
  ℕ, Bool, true, false, ◌||◌, Option, none, some, is_some, List, [], ◌∷◌, Text, text_eqb, any,
  if◌then◌else◌,
}
use srosha.Errs.{Error, nil, detailed, internal, missing_failure_reason, invalid_transition}
use srosha.Shared.Id.{SharedId}
use srosha.Shared.Recipient.{Recipient}

abbrev pub Time : Type 0
Time = ℕ

-- A Go `Status` is any string; `other` holds those that are none of the constants.
pub data Status : Type 0 where
  pending sent failed : Status
  other : Text → Status

unfoldable pub status_eqb : Status → Status → Bool
status_eqb pending pending = true
status_eqb sent sent = true
status_eqb failed failed = true
status_eqb (other s) (other t) = text_eqb s t
status_eqb _ _ = false

-- The map `transitions`.
abbrev pub transitions : Status → Option (List Status)
transitions pending = some (sent ∷ failed ∷ [])
transitions sent = some []
transitions failed = some []
transitions (other _) = none

unfoldable pub status_valid : Status → Bool
status_valid s = is_some (transitions s)

unfoldable pub can_transition_to : Status → Status → Bool
unfolding status_eqb
can_transition_to s next = elim (transitions s) [
  | none ↦ false
  | some allowed ↦ any (λ t. status_eqb t next) allowed
]

abbrev pub is_settled : Status → Bool
is_settled sent = true
is_settled failed = true
is_settled pending = false
is_settled (other _) = false

-- A Go `FailureReason` is any string; `no_failure` is the empty one.
pub data FailureReason : Type 0 where
  no_failure expired max_attempts permanent no_sender not_reachable : FailureReason
  other_reason : Text → FailureReason

abbrev pub reason_valid : FailureReason → Bool
reason_valid no_failure = false
reason_valid (other_reason _) = false
reason_valid _ = true

-- The text kept for operators: none, a fixed sentence of the code, or `err.Error()`.
pub data Detail : Type 0 where
  no_detail : Detail
  said : Text → Detail
  error_text : Error → Detail

pub record Delivery : Type 0 where
  pub id : SharedId
  pub notification_id : SharedId
  pub recipient : Recipient
  pub sender_name : Text
  pub status : Status
  pub attempts : ℕ
  pub last_error : Detail
  pub failure_reason : FailureReason
  pub provider_message_id : Text
  pub notified_at : Option Time
  pub updated_at : Time

-- The methods change the delivery in place: they return it as it then is, and their error.
unfoldable pub move_to : Status → Time → Delivery → Delivery × Error
unfolding can_transition_to
move_to next now d =
    if can_transition_to d.status next
    then (record d { status = next; updated_at = now }, nil)
    else (d, detailed internal invalid_transition)

abbrev then_set : Delivery × Error → (Delivery → Delivery) → Delivery × Error
then_set (d, nil) f = (f d, nil)
then_set (d, e) f = (d, e)

unfoldable pub mark_sent : Text → ℕ → Time → Delivery → Delivery × Error
unfolding move_to
mark_sent provider_message_id attempts now d = then_set (move_to sent now d) λ m. record m {
  provider_message_id = provider_message_id;
  attempts = attempts;
  last_error = no_detail;
  failure_reason = no_failure;
}

abbrev set_failure : FailureReason → Detail → ℕ → Delivery → Delivery
set_failure reason detail n d = record d {
  failure_reason = reason;
  last_error = detail;
  attempts = n;
}

unfoldable pub mark_failed : FailureReason → Detail → ℕ → Time → Delivery → Delivery × Error
unfolding move_to
mark_failed reason detail attempts now d =
    if reason_valid reason
    then then_set (move_to failed now d) (set_failure reason detail attempts)
    else (d, detailed internal missing_failure_reason)
