-- ===== src/Notification.antt =====
-- internal/core/domain/notification: entity.go and types.go. The message that a source submitted.
-- The copies of the metadata map are copies of a value here.
pub mod Accepted
use srosha.Prelude.{
  ℕ, Bool, true, false, not, Option, none, some, List, Text, is_empty, leb, eqb_ℤ, ◌==◌,
  if◌then◌else◌,
}
use srosha.Errs.{
  refused, detailed, internal, invalid_input, invalid_id, missing_source, missing_timestamp,
  empty_body, unknown_priority, already_expired,
}
use srosha.Errs.Result.{Result, ok, ◌>>=◌, ◌>>◌, refuse_if}
use srosha.Shared.Id.{SharedId, is_zero}
use srosha.Shared.Priority.{Priority, valid, clamp}

abbrev pub Time : Type 0
Time = ℕ

abbrev pub Metadata : Type 0
Metadata = List (Text × Text)

pub record Notification : Type 0 where
  pub id : SharedId
  pub source_id : Text
  pub idempotency_key : Text
  pub source_name : Text
  pub title : Text
  pub body : Text
  pub requested_priority : Priority
  pub effective_priority : Priority
  pub expire_at : Option Time
  pub created_at : Time
  pub metadata : Metadata

pub record Origin : Type 0 where
  pub id : Text
  pub name : Text
  pub max_priority : Priority

pub record Request : Type 0 where
  pub idempotency_key : Text
  pub title : Text
  pub body : Text
  pub priority : Priority
  pub expire_at : Option Time
  pub metadata : Metadata

-- `t != nil && !t.After(now)`.
unfoldable pub has_passed : Option Time → Time → Bool
has_passed none now = false
has_passed (some t) now = leb t now

-- The value that `New` returns.
unfoldable pub built : SharedId → Origin → Request → Time → Notification
built id org req now = record {
  id = id;
  source_id = org.id;
  source_name = org.name;
  idempotency_key = req.idempotency_key;
  title = req.title;
  body = req.body;
  requested_priority = req.priority;
  effective_priority = clamp req.priority org.max_priority;
  expire_at = req.expire_at;
  created_at = now;
  metadata = req.metadata;
}

unfoldable pub new : SharedId → Origin → Request → Time → Result Notification
unfolding has_passed built
new id org req now = do
  refuse_if (is_zero id) (refused internal invalid_id)
  refuse_if (is_empty org.id) (refused internal missing_source)
  refuse_if (now == 0) (refused internal missing_timestamp)
  refuse_if (is_empty req.body) (refused invalid_input empty_body)
  refuse_if (not (valid req.priority)) (detailed invalid_input unknown_priority)
  refuse_if (has_passed req.expire_at now) (detailed invalid_input already_expired)
  ok (built id org req now)

unfoldable pub was_downgraded : Notification → Bool
was_downgraded n = not (eqb_ℤ n.effective_priority n.requested_priority)

unfoldable pub is_expired : Notification → Time → Bool
unfolding has_passed
is_expired n now = has_passed n.expire_at now
