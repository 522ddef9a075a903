-- ===== src/Store.antt =====
-- The deliveries table: internal/adapter/db/postgres/queries/delivery.sql, and what
-- internal/adapter/db/postgres/delivery.go makes of its answers. A statement returns the table as
-- it leaves it; Postgres runs each of them atomically.
pub mod Rows
use srosha.Prelude.{
  ℕ, zero, suc, ◌+◌, Bool, true, false, ◌&&◌, ◌||◌, not, Option, none, some, List, [], ◌∷◌, map,
  Text, text_eqb, text_leb, is_some, any, ltb, leb, ◌==◌, if◌then◌else◌,
}
use srosha.Errs.{
  Error, Sentinel, sentinel, app, both, str, detailed, refused, duplicate_entry, not_found,
  internal, already_settled, delivery_not_found, unknown_status, unknown_failure_reason,
}
use srosha.Errs.Result.{Result, ok, err, ◌>>=◌, ◌>>◌, refuse_if}
use srosha.Shared.Id.{SharedId}
use srosha.Delivery.{
  Time, Status, pending, status_eqb, status_valid, FailureReason, no_failure, reason_valid,
  Delivery,
}

pub record Row : Type 0 where
  pub delivery : Delivery
  pub open delivery use *
  pub claimed_at : Option Time

-- `UPDATE … SET … WHERE …`, and the number of rows that it reports.
unfoldable pub update_where : (Row → Bool) → (Row → Row) → List Row → List Row
update_where p f [] = []
update_where p f (r ∷ rs) = (if p r then f r else r) ∷ update_where p f rs

unfoldable pub count_where : (Row → Bool) → List Row → ℕ
count_where p [] = 0
count_where p (r ∷ rs) = (if p r then 1 else 0) + count_where p rs

unfoldable pub select_where : (Row → Bool) → List Row → List Row
select_where p [] = []
select_where p (r ∷ rs) = let rest = select_where p rs in if p r then r ∷ rest else rest

-- `badRow`.
abbrev bad_row : Sentinel → Error
bad_row cause = app internal (both str (sentinel cause))

abbrev pub bad_reason : FailureReason → Bool
bad_reason no_failure = false
bad_reason reason = not (reason_valid reason)

-- `toDelivery`: a row with a status or a reason that the domain does not know is refused.
unfoldable pub to_delivery : Row → Result Delivery
unfolding status_valid
to_delivery r = do
  refuse_if (not (status_valid r.status)) (bad_row unknown_status)
  refuse_if (bad_reason r.failure_reason) (bad_row unknown_failure_reason)
  ok r.delivery

to_deliveries : List Row → Result (List Delivery)
unfolding to_delivery
to_deliveries [] = ok []
to_deliveries (r ∷ rs) = do d ← to_delivery r; ds ← to_deliveries rs; ok (d ∷ ds)

abbrev pub has_id : SharedId → Row → Bool
has_id id r = text_eqb r.id id

abbrev pub of_message : SharedId → Row → Bool
of_message nid r = text_eqb r.notification_id nid

abbrev pub first : List Row → Result Delivery
first [] = err (refused not_found delivery_not_found)
first (r ∷ _) = to_delivery r

unfoldable pub read_by_id : SharedId → List Row → Result Delivery
unfolding select_where to_delivery
read_by_id id rows = first (select_where (has_id id) rows)

unfoldable pub list_by_notification : SharedId → List Row → Result (List Delivery)
unfolding select_where to_deliveries
list_by_notification nid rows = to_deliveries (select_where (of_message nid) rows)

-- `UpdateDelivery`: an outcome is written only over a row that is still pending.
abbrev pub is_pending_with : SharedId → Row → Bool
is_pending_with id r = has_id id r && status_eqb r.status pending

abbrev pub with_outcome : Delivery → Row → Row
with_outcome d r = record r {
  delivery = record (r.delivery) {
    status = d.status;
    attempts = d.attempts;
    last_error = d.last_error;
    failure_reason = d.failure_reason;
    provider_message_id = d.provider_message_id;
    updated_at = d.updated_at;
  };
}

unfoldable pub update : Delivery → List Row → Result (Unit {0}) × List Row
unfolding update_where count_where
update d rows = (
  if count_where (is_pending_with d.id) rows == 0
      then err (detailed duplicate_entry already_settled)
      else ok tt,
  update_where (is_pending_with d.id) (with_outcome d) rows,
)

-- `ClaimNotificationAnnouncement`.
abbrev pub is_unannounced : SharedId → Row → Bool
is_unannounced nid r = of_message nid r && not (is_some r.notified_at)

abbrev pub announced_at : Time → Row → Row
announced_at now r = record r { delivery = record (r.delivery) { notified_at = some now } }

unfoldable pub claim_announcement : SharedId → Time → List Row → Bool × List Row
unfolding update_where count_where
claim_announcement nid now rows = (
  ltb 0 (count_where (is_unannounced nid) rows),
  update_where (is_unannounced nid) (announced_at now) rows,
)

-- `ReleaseDeliveryClaim`.
unfoldable pub release : SharedId → List Row → List Row
unfolding update_where
release id = update_where (is_pending_with id) (λ r. record r { claimed_at = none })

-- `ClaimStaleDeliveries`: `now - older` and `now - lease` are compared in sums, since moments are
-- counted from zero.
expired_claim : Option Time → Time → ℕ → Bool
expired_claim none now lease = true
expired_claim (some t) now lease = ltb (t + lease) now

is_stale : Time → ℕ → ℕ → Row → Bool
unfolding expired_claim
is_stale now older lease r =
    status_eqb r.status pending
    && ltb (r.updated_at + older) now
    && expired_claim r.claimed_at now lease

-- `ORDER BY updated_at, id`; identifiers are compared byte by byte.
row_leb : Row → Row → Bool
unfolding text_leb
row_leb a b =
    ltb a.updated_at b.updated_at || ((a.updated_at == b.updated_at) && text_leb a.id b.id)

insert_row : Row → List Row → List Row
unfolding row_leb
insert_row r [] = r ∷ []
insert_row r (q ∷ qs) = let rest = insert_row r qs in if row_leb r q then r ∷ q ∷ qs else q ∷ rest

sort_rows : List Row → List Row
unfolding insert_row
sort_rows [] = []
sort_rows (r ∷ rs) = insert_row r (sort_rows rs)

take : ℕ → List Row → List Row
take zero rs = []
take (suc n) [] = []
take (suc n) (r ∷ rs) = r ∷ take n rs

selected : Time → ℕ → ℕ → ℕ → List Row → List Row
unfolding sort_rows take is_stale select_where
selected now older lease limit rows =
    take limit (sort_rows (select_where (is_stale now older lease) rows))

abbrev pub claimed : Time → Row → Row
claimed now r = record r { claimed_at = some now }

-- Whether the row is one of those.
unfoldable pub is_among : List Row → Row → Bool
is_among chosen r = any (λ (q : Row). text_eqb q.id r.id) chosen

unfoldable pub claim_stale : Time → ℕ → ℕ → ℕ → List Row → Result (List Delivery) × List Row
unfolding selected update_where select_where to_deliveries is_among
claim_stale now older lease limit rows =
    let chosen = is_among (selected now older lease limit rows) in
    (
      to_deliveries (map (claimed now) (select_where chosen rows)),
      update_where chosen (claimed now) rows,
    )
