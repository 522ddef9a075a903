-- ===== src/Dispatch/Recorded.antt =====
-- Writing an outcome down: the write is answered for, or the row is not pending any more.
use srosha.Prelude.{
  ℕ, ◌+◌, ◌≡◌, refl, subst, ◌≢◌, ◌⊎◌, inl, inr, Bool, true, false, Option, some, arith, Text,
  Bool-cases,
}
use srosha.Errs.{Error, nil, is_nil, SendKind, transient, permanent, unreachable}
use srosha.Shared.Id.{SharedId}
use srosha.Delivery.{
  Time, pending, Delivery, FailureReason, Detail, reason_valid, mark_sent, mark_failed, error_text,
}
use srosha.Notification.{Notification}
use srosha.Store.{update}
use srosha.Dispatch.{
  Config, as_error, unless_failed, write, record_sent, record_failed, settled, announce, finish,
  fail, send_failed,
}
use srosha.Dispatch.Program.{Prog, ret, read_clock}
use srosha.Dispatch.World.{World, Fault, fine, before, after, under, driver_failure, exec}
use srosha.Dispatch.Rely.{
  Wp, Wp-bind, Wp-map, Wp-stable, status_of, IsResolved, IsResolved-kept, update-status_of,
}

-- A write was answered for: an error that counts, or the row is no longer waiting.
abbrev pub Recorded : SharedId → Error → World → Type 0
Recorded id e w = (settled e ≢ nil) ⊎ IsResolved id w

-- The broker is asked again, or the row is no longer waiting.
abbrev pub IsAnswered : SharedId → Error → World → Type 0
IsAnswered id e w = (e ≢ nil) ⊎ IsResolved id w

driver_counts : settled driver_failure ≢ nil
unfolding settled
driver_counts e = cc

write-Recorded :
    (id : SharedId) (d : Delivery) (w : World)
    → d.id ≡ id
    → d.status ≢ pending
    → Wp (Recorded id) (write d) w
unfolding write exec
write-Recorded id d w same h a v sane kept = under_fault a.fault
  where
    under_fault :
        (f : Fault)
        → let done = under f v ((update d v.rows).0, record v { rows = (update d v.rows).1 }) in
          Recorded id (as_error done.0) done.1
    under_fault fine = inr (
        subst (λ i. status_of i (update d v.rows).1 ≢ some pending) same
          (update-status_of d v.rows h))
    under_fault before = inl driver_counts
    under_fault after = inl driver_counts

unless-Wp :
    (Q : Error → World → Type 0) (e : Error) (p : Prog Error) (w : World)
    → e ≡ nil
    → Wp Q p w
    → Wp Q (unless_failed e p) w
unless-Wp Q e p w h k = rw h k

mark_sent-pending :
    (p : Text) (n : ℕ) (t : Time) (d : Delivery)
    → d.status ≡ pending
    → ((mark_sent p n t d).1 ≡ nil)
      × ((mark_sent p n t d).0.status ≢ pending)
      × ((mark_sent p n t d).0.id ≡ d.id)
unfolding mark_sent
mark_sent-pending p n t d h = (ground arith, ground arith, ground arith)

mark_failed-pending :
    (r : FailureReason) (s : Detail) (n : ℕ) (t : Time) (d : Delivery)
    → d.status ≡ pending
    → reason_valid r ≡ true
    → ((mark_failed r s n t d).1 ≡ nil)
      × ((mark_failed r s n t d).0.status ≢ pending)
      × ((mark_failed r s n t d).0.id ≡ d.id)
unfolding mark_failed
mark_failed-pending r s n t d h v = (ground arith, ground arith, ground arith)

pub record_sent-Recorded :
    (d : Delivery) (p : Text) (n : ℕ) (w : World)
    → d.status ≡ pending
    → Wp (Recorded d.id) (record_sent d p n) w
unfolding record_sent
record_sent-Recorded d p n w h a v sane kept =
    let (none_said, moved, same) = mark_sent-pending p n (exec read_clock a v).0 d h in
    unless-Wp (Recorded d.id) _ _ _ none_said
      (write-Recorded d.id _ (exec read_clock a v).1 same moved)

record_failed-Recorded :
    (d : Delivery) (r : FailureReason) (s : Detail) (n : ℕ) (w : World)
    → d.status ≡ pending
    → reason_valid r ≡ true
    → Wp (Recorded d.id) (record_failed d r s n) w
unfolding record_failed
record_failed-Recorded d r s n w h known a v sane kept =
    let (none_said, moved, same) = mark_failed-pending r s n (exec read_clock a v).0 d h known in
    unless-Wp (Recorded d.id) _ _ _ none_said
      (write-Recorded d.id _ (exec read_clock a v).1 same moved)

not_nil : (e : Error) → e ≢ nil → is_nil e ≡ false
not_nil nil h = absurd (h refl)
not_nil e h = refl

pub finish-IsAnswered :
    (cfg : Config) (n : Option Notification) (e : Error) (id : SharedId) (w : World)
    → Recorded id e w
    → Wp (IsAnswered id) (finish cfg n e) w
unfolding finish
finish-IsAnswered cfg n e id w (inl h) = rw (not_nil (settled e) h) (inl h)
finish-IsAnswered cfg n e id w (inr h) = elim (Bool-cases (is_nil (settled e))) [
  | inl done ↦ rw done (
      Wp-bind (IsAnswered id) (announce cfg n) (λ _. ret nil) w
        (Wp-map (λ _ v. IsResolved id v) _ (announce cfg n) w (λ _ v r. inr r)
          (Wp-stable (IsResolved id) (announce cfg n) w (IsResolved-kept id) h)))
  | inr e' ↦ rw e' (inr h)
]

pub fail-IsAnswered :
    (cfg : Config) (d : Delivery) (n : Option Notification) (r : FailureReason) (s : Detail)
    (w : World)
    → d.status ≡ pending
    → reason_valid r ≡ true
    → Wp (IsAnswered d.id) (fail cfg d n r s) w
unfolding fail
fail-IsAnswered cfg d n r s w h known =
    Wp-bind (IsAnswered d.id) (record_failed d r s (d.attempts + 1)) _ w (
      Wp-map (Recorded d.id) _ (record_failed d r s (d.attempts + 1)) w
        (λ e v recorded. finish-IsAnswered cfg n e d.id v recorded)
        (record_failed-Recorded d r s (d.attempts + 1) w h known))

pub send_failed-IsAnswered :
    (cfg : Config) (d : Delivery) (n : Notification) (e : Error) (last : Bool) (k : SendKind)
    (w : World)
    → d.status ≡ pending
    → e ≢ nil
    → Wp (IsAnswered d.id) (send_failed cfg d n e last k) w
unfolding send_failed
send_failed-IsAnswered cfg d n e last unreachable w h ne =
    fail-IsAnswered cfg d (some n) FailureReason.not_reachable (error_text e) w h refl
send_failed-IsAnswered cfg d n e last permanent w h ne =
    fail-IsAnswered cfg d (some n) FailureReason.permanent (error_text e) w h refl
send_failed-IsAnswered cfg d n e true transient w h ne =
    fail-IsAnswered cfg d (some n) FailureReason.max_attempts (error_text e) w h refl
send_failed-IsAnswered cfg d n e false transient w h ne = λ a v sane kept. inl ne
