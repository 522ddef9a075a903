-- ===== src/Dispatch/Acked.antt =====
-- What it means that `Handle` tells the broker it is done.
use srosha.Prelude.{
  ℕ, ◌+◌, ◌≡◌, refl, ap, subst, ◌≢◌, ◌⊎◌, inl, inr, Bool, true, false, none, some, List, [], ◌∷◌,
  arith, Text, text, text_eqb, text_eqb_iff, leb, Bool-cases, if◌then◌else◌,
}
use srosha.Errs.{
  nil, errors_is, is_type, invalid_input, delivery_not_found, notification_not_found, send_kind_of,
}
use srosha.Errs.Result.{Result, ok, err}
use srosha.Shared.Id.{SharedId}
use srosha.Delivery.{
  Status, pending, Delivery, FailureReason, is_settled, status_valid, no_detail, said, error_text,
}
use srosha.Notification.{Notification, is_expired}
use srosha.Store.{Row, first, bad_reason, has_id, read_by_id, to_delivery, select_where}
use srosha.Store.Rows.{KeptAll}
use srosha.Dispatch.{
  Config, record_sent, fail, after_send, after_lookup, deliver_in_time, deliver_message,
  after_message, deliver, after_read, handle, sender_of, message_of,
}
use srosha.Dispatch.Program.{send_message}
use srosha.Dispatch.World.{
  World, Fault, fine, before, after, Answer, IsSane, find_message, under, driver_failure, exec, run,
}
use srosha.Dispatch.Rely.{Wp, Wp-bind, Wp-map, Wp-run, status_of, IsResolved}
use srosha.Dispatch.Recorded.{
  Recorded, IsAnswered, record_sent-Recorded, finish-IsAnswered, fail-IsAnswered,
  send_failed-IsAnswered,
}

-- What a read says of the row with that identifier.
abbrev IsRead : SharedId → List Row → Result Delivery → Type 0
IsRead id rows (err e) =
    (e ≢ nil) × ((errors_is e delivery_not_found ≡ false) ⊎ (status_of id rows ≢ some pending))
IsRead id rows (ok d) =
    (d.id ≡ id) × (status_of id rows ≡ some d.status) × (status_valid d.status ≡ true)

lost : let r : Result Notification = err driver_failure in r ≢ err nil
lost e = cc

lost-IsRead : (id : SharedId) (rows : List Row) → IsRead id rows (err driver_failure)
unfolding errors_is
lost-IsRead id rows = ((λ e. cc), inl refl)

find_message-sane : (id : SharedId) (ns : List Notification) → find_message id ns ≢ err nil
unfolding find_message
find_message-sane id [] e = cc
find_message-sane id (n ∷ ns) e = elim (Bool-cases (text_eqb n.id id)) [
  | inl t ↦ let same : ok n ≡ err nil = rw t at e in cc
  | inr t ↦ find_message-sane id ns (rw t at e)
]

module _ (cfg : Config) (d : Delivery) (h : d.status ≡ pending) where
  after_send-IsAnswered :
      (n : Notification) (last : Bool) (sent : Result Text) (w : World)
      → sent ≢ err nil
      → Wp (IsAnswered d.id) (after_send cfg d n last sent) w
  unfolding after_send
  after_send-IsAnswered n last (err e) w ne =
      send_failed-IsAnswered cfg d n e last (send_kind_of e) w h (λ z. ne (ap err z))
  after_send-IsAnswered n last (ok p) w ne =
      Wp-bind (IsAnswered d.id) (record_sent d p (d.attempts + 1)) _ w (
        Wp-map (Recorded d.id) _ (record_sent d p (d.attempts + 1)) w
          (λ e v recorded. finish-IsAnswered cfg (some n) e d.id v recorded)
          (record_sent-Recorded d p (d.attempts + 1) w h))

  after_lookup-IsAnswered :
      (n : Notification) (last : Bool) (found : Result (Unit {0})) (w : World)
      → found ≢ err nil
      → Wp (IsAnswered d.id) (after_lookup cfg d n last found) w
  unfolding after_lookup exec
  after_lookup-IsAnswered n last (ok _) w ne = λ a v sane kept.
      after_send-IsAnswered n last a.sent
        (exec (send_message (sender_of n d) (message_of d n)) a v).1 sane.1
  after_lookup-IsAnswered n last (err e) w ne = elim (Bool-cases (is_type e invalid_input)) [
    | inl t ↦ rw t (fail-IsAnswered cfg d (some n) FailureReason.no_sender (error_text e) w h refl)
    | inr t ↦ rw t (inl (λ z. ne (ap err z)))
  ]

  after_clock-IsAnswered :
      (n : Notification) (last late : Bool) (w : World)
      → Wp
          (IsAnswered d.id)
          (if late
            then fail cfg d (some n) FailureReason.expired no_detail
            else deliver_in_time cfg d n last)
          w
  unfolding exec deliver_in_time
  after_clock-IsAnswered n last true w =
      fail-IsAnswered cfg d (some n) FailureReason.expired no_detail w h refl
  after_clock-IsAnswered n last false w =
      λ a v sane kept. after_lookup-IsAnswered n last a.found v sane.0

  deliver_message-IsAnswered :
      (n : Notification) (last : Bool) (w : World)
      → Wp (IsAnswered d.id) (deliver_message cfg d n last) w
  unfolding deliver_message exec
  deliver_message-IsAnswered n last w =
      λ a v sane kept. after_clock-IsAnswered n last (is_expired n a.clock) v

  after_message-IsAnswered :
      (last : Bool) (found : Result Notification) (w : World)
      → found ≢ err nil
      → Wp (IsAnswered d.id) (after_message cfg d last found) w
  unfolding after_message
  after_message-IsAnswered last (ok n) w ne = deliver_message-IsAnswered n last w
  after_message-IsAnswered last (err e) w ne =
      elim (Bool-cases (errors_is e notification_not_found)) [
        | inl t ↦ rw t (
            fail-IsAnswered cfg d none FailureReason.permanent (said (text "message is gone")) w h
              refl)
        | inr t ↦ rw t (inl (λ z. ne (ap err z)))
      ]

  deliver-IsAnswered : (last : Bool) (w : World) → Wp (IsAnswered d.id) (deliver cfg d last) w
  unfolding deliver exec
  deliver-IsAnswered last w = λ a v sane kept. under_fault a.fault v
    where
      under_fault :
          (f : Fault) (v : World)
          → let done = under f v (find_message d.notification_id v.messages, v) in
            Wp (IsAnswered d.id) (after_message cfg d last done.0) done.1
      under_fault fine v =
          after_message-IsAnswered last (find_message d.notification_id v.messages) v
            (find_message-sane d.notification_id v.messages)
      under_fault before v = after_message-IsAnswered last (err driver_failure) v lost
      under_fault after v = after_message-IsAnswered last (err driver_failure) v lost

after_read-IsAnswered :
    (cfg : Config) (id : SharedId) (attempt : ℕ) (found : Result Delivery) (w : World)
    → IsRead id w.rows found
    → Wp (IsAnswered id) (after_read cfg attempt found) w
unfolding after_read status_valid
after_read-IsAnswered cfg id attempt (err e) w (ne, inr h) =
    elim (Bool-cases (errors_is e delivery_not_found)) [
      | inl t ↦ rw t (inr h)
      | inr t ↦ rw t (inl ne)
    ]
after_read-IsAnswered cfg id attempt (err e) w (ne, inl h) = rw h (inl ne)
after_read-IsAnswered cfg id attempt (ok d) w h = elim (Bool-cases (is_settled d.status)) [
  | inl t ↦ rw t (inr (settled-not_pending d.status t h.1))
  | inr t ↦ rw t (
      subst (λ i. Wp (IsAnswered i) (deliver cfg d (leb cfg.max_attempts attempt)) w) h.0
        (deliver-IsAnswered cfg d (unsettled-pending d.status h.2 t) (leb cfg.max_attempts attempt)
          w))
]
  where
    settled-not_pending :
        (s : Status)
        → is_settled s ≡ true
        → status_of id w.rows ≡ some s
        → status_of id w.rows ≢ some pending
    settled-not_pending s t e e' = ground arith

    unsettled-pending : (s : Status) → status_valid s ≡ true → is_settled s ≡ false → s ≡ pending
    unsettled-pending s v t = ground arith

to_delivery-IsRead :
    (id : SharedId) (rows : List Row) (r : Row)
    → r.id ≡ id
    → status_of id rows ≡ some r.status
    → IsRead id rows (to_delivery r)
unfolding to_delivery errors_is status_valid
to_delivery-IsRead id rows r same h = elim (Bool-cases (status_valid r.status)) [
  | inr v ↦ rw v ((λ e. cc), inl refl)
  | inl v ↦ rw v (elim (Bool-cases (bad_reason r.failure_reason)) [
    | inl b ↦ rw b ((λ e. cc), inl refl)
    | inr b ↦ rw b (same, h, v)
  ])
]

skip-IsRead :
    (id : SharedId) (r : Row) (rs : List Row) (found : Result Delivery)
    → has_id id r ≡ false
    → IsRead id rs found
    → IsRead id (r ∷ rs) found
skip-IsRead id r rs (err e) t (ne, inl h) = (ne, inl h)
skip-IsRead id r rs (err e) t (ne, inr h) = (ne, inr (rw t h))
skip-IsRead id r rs (ok d) t h = (h.0, rw t h.1, h.2)

select-IsRead :
    (id : SharedId) (rows : List Row) → IsRead id rows (first (select_where (has_id id) rows))
unfolding select_where errors_is
select-IsRead id [] = ((λ e. cc), inr (λ e. cc))
select-IsRead id (r ∷ rs) = elim (Bool-cases (has_id id r)) [
  | inl t ↦ rw t (to_delivery-IsRead id (r ∷ rs) r ((text_eqb_iff r.id id).0 t) (rw t refl))
  | inr t ↦ rw t (skip-IsRead id r rs (first (select_where (has_id id) rs)) t (select-IsRead id rs))
]

handle-IsAnswered :
    (cfg : Config) (id : SharedId) (attempt : ℕ) (w : World)
    → Wp (IsAnswered id) (handle cfg id attempt) w
unfolding handle exec read_by_id
handle-IsAnswered cfg id attempt w = λ a v sane kept. under_fault a.fault v
  where
    under_fault :
        (f : Fault) (v : World)
        → let done = under f v (read_by_id id v.rows, v) in
          Wp (IsAnswered id) (after_read cfg attempt done.0) done.1
    under_fault fine v = after_read-IsAnswered cfg id attempt _ v (select-IsRead id v.rows)
    under_fault before v =
        after_read-IsAnswered cfg id attempt (err driver_failure) v (lost-IsRead id v.rows)
    under_fault after v =
        after_read-IsAnswered cfg id attempt (err driver_failure) v (lost-IsRead id v.rows)

-- When `Handle` returns `nil`, so that the broker is done with the event, no delivery with that
-- identifier is pending: it is settled, or there is none. Whatever the other workers do between
-- any two of its calls, as long as they leave settled rows alone, and whichever statements fail,
-- before they took effect or after, as long as a failed lookup or send returns an error.
pub run-handle :
    (cfg : Config) (id : SharedId) (attempt : ℕ) (answers : ℕ → Answer) (others : ℕ → World → World)
    (w : World)
    → ((j : ℕ) → IsSane (answers j))
    → ((j : ℕ) (v : World) → KeptAll v.rows (others j v).rows)
    → let done = run (handle cfg id attempt) answers others 0 w in
      (done.0 ≢ nil) ⊎ IsResolved id done.1
run-handle cfg id attempt answers others w sane kept =
    Wp-run (IsAnswered id) (handle cfg id attempt) answers others 0 w sane kept
      (handle-IsAnswered cfg id attempt w)
