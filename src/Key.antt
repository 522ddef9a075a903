-- ===== src/Key.antt =====
-- internal/core/domain/source/key.go: one API key of a source, without the key.
use srosha.Prelude.{ℕ, Bool, not, ◌&&◌, Option, none, is_some, Text, is_empty, length, ltb}
use srosha.Errs.{
  refused, detailed, internal, invalid_input, invalid_id, missing_source, key_label_required,
  key_label_too_long, key_already_expired,
}
use srosha.Errs.Result.{Result, ok, ◌>>◌, refuse_if}
use srosha.Shared.Id.{SharedId, is_zero}
use srosha.Delivery.{Time}
use srosha.Notification.{has_passed}

pub record Key : Type 0 where
  pub id : SharedId
  pub source_id : Text
  pub label : Text
  pub created_at : Time
  pub last_used_at : Option Time
  pub expires_at : Option Time
  pub revoked_at : Option Time

abbrev pub max_key_label_len : ℕ
max_key_label_len = 64

unfoldable pub validate_label : Text → Result (Unit {0})
validate_label label = do
  refuse_if (is_empty label) (refused invalid_input key_label_required)
  refuse_if (ltb max_key_label_len (length label)) (detailed invalid_input key_label_too_long)

unfoldable pub new_key : SharedId → Text → Text → Option Time → Time → Result Key
unfolding validate_label
new_key id source_id label expires_at now = do
  refuse_if (is_zero id) (refused internal invalid_id)
  refuse_if (is_empty source_id) (refused internal missing_source)
  validate_label label
  refuse_if (has_passed expires_at now) (refused invalid_input key_already_expired)
  ok (record {
    id = id;
    source_id = source_id;
    label = label;
    created_at = now;
    last_used_at = none;
    expires_at = expires_at;
    revoked_at = none;
  })

unfoldable pub is_live : Time → Key → Bool
is_live now k = not (is_some k.revoked_at) && not (has_passed k.expires_at now)
