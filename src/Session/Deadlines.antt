-- ===== src/Session/Deadlines.antt =====
-- How long a session lasts.
use srosha.Prelude.{◌+◌, ◌<◌, ◌≡◌, refl, true, List, [], ◌∷◌, arith, if◌then◌else◌}
use srosha.Shared.Id.{SharedId}
use srosha.Delivery.{Time}
use srosha.Session.{Session, new, valid, touch, lifetime, idle_timeout}

-- The requests that come with a session: the moments at which it is valid touch it.
unfoldable pub use_all : List Time → Session → Session
unfolding valid touch
use_all [] s = s
use_all (now ∷ rest) s = use_all rest (if valid now s then touch now s else s)

use_all-expires_at :
    (moments : List Time) (s : Session) → (use_all moments s).expires_at ≡ s.expires_at
unfolding use_all
use_all-expires_at [] s = refl
use_all-expires_at (now ∷ rest) s =
    ground (arith, use_all-expires_at rest s, use_all-expires_at rest (touch now s))

-- However busy a session is, it is not valid from `Lifetime` after it began, nor from
-- `IdleTimeout` after it was last seen.
pub valid-use_all :
    (id user : SharedId) (start : Time) (moments : List Time) (now : Time)
    → valid now (use_all moments (new id user start)) ≡ true
    → (now < start + lifetime)
      × (now < (use_all moments (new id user start)).last_seen_at + idle_timeout)
unfolding valid new
valid-use_all id user start moments now h =
    ground (arith, use_all-expires_at moments (new id user start))
