-- ===== src/Retention.antt =====
-- internal/core/usecase/retention.go, with `DeleteOlderThan` of internal/core/domain/notification/service.go
-- and of internal/adapter/db/postgres/notification.go. The count of what was deleted is only logged.
pub mod Emptied
use srosha.Prelude.{
  ℕ, zero, suc, ◌+◌, Bool, true, false, List, [], ◌∷◌, Text, text_eqb, text_leb, any, map, ltb,
  if◌then◌else◌,
}
use srosha.Errs.{Error, app, both, str, internal}
use srosha.Errs.Result.{Result, ok, err}
use srosha.Effect.{Under, Effect, ◌>>=◌, pure, statement}
use srosha.Table.{filter_where, count_where, delete_where, order_by, limited}
use srosha.Shared.Id.{SharedId}
use srosha.Delivery.{Time, Delivery}
use srosha.Notification.{Notification}

pub record Archive : Type 0 where
  pub messages : List Notification
  pub deliveries : List Delivery

abbrev pub max_retention_batches : ℕ
max_retention_batches = 100

-- `created_at < now - age`, in sums.
abbrev pub is_old : Time → ℕ → Notification → Bool
is_old now age n = ltb (n.created_at + age) now

abbrev pub in_order : Notification → Notification → Bool
unfolding text_leb
in_order a b = text_leb a.id b.id

unfoldable pub selected : Time → ℕ → ℕ → List Notification → List Notification
unfolding in_order
selected now age limit ms = limited limit (order_by in_order (filter_where (is_old now age) ms))

abbrev pub is_among : List Notification → Notification → Bool
is_among ms n = any (λ (m : Notification). text_eqb n.id m.id) ms

abbrev pub is_of : List Notification → Delivery → Bool
is_of ms d = any (λ (m : Notification). text_eqb d.notification_id m.id) ms

-- The statement, and the deliveries that go with the messages.
unfoldable pub delete_older : Time → ℕ → ℕ → Archive → Result ℕ × Archive
unfolding selected
delete_older now age limit t =
    let gone = selected now age limit t.messages in
    (
      ok (count_where (is_among gone) t.messages),
      record {
        messages = delete_where (is_among gone) t.messages;
        deliveries = delete_where (is_of gone) t.deliveries;
      },
    )

-- The error of a batch, wrapped.
abbrev pub wrapped : {S A : Type 0} → Result A × Under S → Result A × Under S
wrapped (ok a, u) = (ok a, u)
wrapped (err e, u) = (err (app internal (both e str)), u)

-- The loop, by the number of batches that are left: whether the context is done, and the time, are
-- asked before each.
unfoldable pub purge_from : ℕ → (ℕ → Bool) → (ℕ → Time) → ℕ → ℕ → Effect Archive (Unit {0})
unfolding delete_older
purge_from zero done clock age batch = pure tt
purge_from (suc k) done clock age batch =
    let rest = purge_from k done clock age batch in
    if done k then pure tt else (do
      n ← (λ u. wrapped (statement (delete_older (clock k) age batch) u))
      if ltb n batch then pure tt else rest)

-- `Purge`.
unfoldable pub purge : (ℕ → Bool) → (ℕ → Time) → ℕ → ℕ → Effect Archive (Unit {0})
unfolding purge_from
purge = purge_from max_retention_batches
