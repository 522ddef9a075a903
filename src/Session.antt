-- ===== src/Session.antt =====
-- internal/core/domain/session: a signed-in browser, with two deadlines.
pub mod Deadlines
use srosha.Prelude.{ℕ, ◌+◌, ◌*◌, Bool, true, false, ◌&&◌, ltb, if◌then◌else◌}
use srosha.Shared.Id.{SharedId}
use srosha.Delivery.{Time}
use srosha.LoginCode.{minute}

pub record Session : Type 0 where
  pub id : SharedId
  pub user_id : SharedId
  pub expires_at : Time
  pub last_seen_at : Time
  pub created_at : Time

abbrev pub lifetime : ℕ
lifetime = 12 * (60 * minute)

abbrev pub idle_timeout : ℕ
idle_timeout = 2 * (60 * minute)

unfoldable pub new : SharedId → SharedId → Time → Session
new id user_id now = record {
  id = id;
  user_id = user_id;
  expires_at = now + lifetime;
  last_seen_at = now;
  created_at = now;
}

-- `now.Sub(s.LastSeenAt) < IdleTimeout`, in sums.
unfoldable pub valid : Time → Session → Bool
valid now s = ltb now s.expires_at && ltb now (s.last_seen_at + idle_timeout)

unfoldable pub touch : Time → Session → Session
touch now s = record s { last_seen_at = now }
