-- ===== src/Dispatch/Discipline.antt =====
-- The callback is told only by the worker that claimed the announcement, once per claim: every
-- program of the dispatcher keeps that discipline.
use srosha.Prelude.{
  ℕ, ◌+◌, ◌≡◌, refl, Bool, true, false, Option, none, some, List, [], ◌∷◌, all, leb, ◌&&◌, not,
  Text, text, if◌then◌else◌,
}
use srosha.Errs.{
  Error, nil, is_nil, errors_is, is_type, invalid_input, delivery_not_found, notification_not_found,
  SendKind, transient, permanent, unreachable, send_kind_of,
}
use srosha.Errs.Result.{Result, ok, err}
use srosha.Shared.Id.{SharedId}
use srosha.Delivery.{
  Time, Delivery, FailureReason, Detail, no_detail, said, error_text, is_settled, mark_sent,
  mark_failed,
}
use srosha.Notification.{Notification, is_expired}
use srosha.Webhook.{Webhook, record_failure}
use srosha.Dispatch.{
  Config, unless_failed, write, record_sent, record_failed, settled, record_webhook_failure,
  record_webhook_success, tell, after_count, after_told, active_webhook, is_mine, announce_to,
  announce_finished, after_list, after_claim, announce_message, announce, finish, fail, send_failed,
  after_send, send, after_lookup, deliver_in_time, deliver_message, after_message, deliver,
  after_read, handle, recover_each, recover,
}
use srosha.Dispatch.Program.{
  Op, claim_announcement, notify, webhook_deactivate, Reply, Prog, ret, call, ◌>>=◌,
}

-- What a worker holds after a call: the announcement that it claimed and has not made yet.
abbrev pub held_after : Option SharedId → (o : Op) → Reply o → Option SharedId
held_after h (claim_announcement nid now) r = if is_mine r then some nid else none
held_after h (notify w b) r = none
held_after h o r = h

-- When a worker that holds `h` may make the call.
abbrev pub May : Option SharedId → Op → Type 0
May h (claim_announcement nid now) = h ≡ none
May h (notify w b) = h ≡ some b.notification_id
May h o = Unit {0}

-- Every call of the program is one that it may make, and at its end it holds nothing.
abbrev pub Keeps : {A : Type 0} → Option SharedId → Prog A → Type 0
Keeps h (ret x) = h ≡ none
Keeps h (call o k) = May h o × ((r : Reply o) → Keeps (held_after h o r) (k r))

bind-Keeps :
    {A B : Type 0} (h : Option SharedId) (p : Prog A) (f : A → Prog B)
    → Keeps h p
    → ((x : A) → Keeps none (f x))
    → Keeps h (p >>= f)
bind-Keeps h (ret x) f e k = rw e (k x)
bind-Keeps h (call o g) f (may, rest) k =
    (may, λ r. bind-Keeps (held_after h o r) (g r) f (rest r) k)

unless-Keeps : (e : Error) (p : Prog Error) → Keeps none p → Keeps none (unless_failed e p)
unless-Keeps nil p h = h
unless-Keeps e p h = refl

write-Keeps : (d : Delivery) → Keeps none (write d)
unfolding write
write-Keeps d = (tt, λ r. refl)

record_sent-Keeps : (d : Delivery) (p : Text) (n : ℕ) → Keeps none (record_sent d p n)
unfolding record_sent
record_sent-Keeps d p n = (
  tt,
  λ now.
      unless-Keeps (mark_sent p n now d).1 (write (mark_sent p n now d).0)
        (write-Keeps (mark_sent p n now d).0),
)

record_failed-Keeps :
    (d : Delivery) (r : FailureReason) (s : Detail) (n : ℕ) → Keeps none (record_failed d r s n)
unfolding record_failed
record_failed-Keeps d r s n = (
  tt,
  λ now.
      unless-Keeps (mark_failed r s n now d).1 (write (mark_failed r s n now d).0)
        (write-Keeps (mark_failed r s n now d).0),
)

if-Keeps :
    {A : Type 0} (h : Option SharedId) (b : Bool) (p q : Prog A)
    → Keeps h p
    → Keeps h q
    → Keeps h (if b then p else q)
if-Keeps h true p q k l = k
if-Keeps h false p q k l = l

module _ (cfg : Config) where
  after_count-Keeps : (w : Webhook) (r : Result ℕ) → Keeps none (after_count cfg w r)
  unfolding after_count
  after_count-Keeps w (err e) = refl
  after_count-Keeps w (ok n) = (
    tt,
    λ now.
        if-Keeps none
          (w.is_active && not (record_failure n cfg.max_webhook_failures now w).is_active)
          (call (webhook_deactivate w.id now) (λ _. ret tt)) (ret tt) (tt, λ r. refl) refl,
  )

  after_told-Keeps : (w : Webhook) (r : Result (Unit {0})) → Keeps none (after_told cfg w r)
  unfolding record_webhook_failure record_webhook_success
  after_told-Keeps w (ok _) = (tt, λ now. (tt, λ r. refl))
  after_told-Keeps w (err e) = (tt, λ r. after_count-Keeps w r)

  tell-Keeps :
      (n : Notification) (w : Webhook) (ds : List Delivery) → Keeps (some n.id) (tell cfg n w ds)
  unfolding tell
  tell-Keeps n w ds = (tt, λ id. (tt, λ now. (refl, λ r. after_told-Keeps w r)))

  after_mine-Keeps :
      (n : Notification) (w : Webhook) (ds : List Delivery) (mine : Bool)
      → Keeps (if mine then some n.id else none) (if mine then tell cfg n w ds else ret tt)
  after_mine-Keeps n w ds true = tell-Keeps n w ds
  after_mine-Keeps n w ds false = refl

  announce_to-Keeps :
      (n : Notification) (ds : List Delivery) (w : Option Webhook)
      → Keeps none (announce_to cfg n ds w)
  unfolding announce_to
  announce_to-Keeps n ds none = refl
  announce_to-Keeps n ds (some w) =
      (tt, λ now. (refl, λ mine. after_mine-Keeps n w ds (is_mine mine)))

  announce_finished-Keeps :
      (n : Notification) (ds : List Delivery) → Keeps none (announce_finished cfg n ds)
  unfolding announce_finished
  announce_finished-Keeps n ds = (tt, λ r. announce_to-Keeps n ds (active_webhook r))

  after_list-Keeps :
      (n : Notification) (r : Result (List Delivery)) → Keeps none (after_list cfg n r)
  after_list-Keeps n (err e) = refl
  after_list-Keeps n (ok ds) =
      if-Keeps none (all (λ (d : Delivery). is_settled d.status) ds) (announce_finished cfg n ds)
        (ret tt) (announce_finished-Keeps n ds) refl

  announce-Keeps : (n : Option Notification) → Keeps none (announce cfg n)
  unfolding announce announce_message
  announce-Keeps none = refl
  announce-Keeps (some n) = (tt, λ r. after_list-Keeps n r)

  finish-Keeps : (n : Option Notification) (e : Error) → Keeps none (finish cfg n e)
  unfolding finish
  finish-Keeps n e =
      if-Keeps none (is_nil (settled e)) (announce cfg n >>= λ _. ret nil) (ret (settled e))
        (bind-Keeps none (announce cfg n) (λ _. ret nil) (announce-Keeps n) (λ _. refl)) refl

  fail-Keeps :
      (d : Delivery) (n : Option Notification) (r : FailureReason) (s : Detail)
      → Keeps none (fail cfg d n r s)
  unfolding fail
  fail-Keeps d n r s =
      bind-Keeps none (record_failed d r s (d.attempts + 1)) (λ e. finish cfg n e)
        (record_failed-Keeps d r s (d.attempts + 1)) (λ e. finish-Keeps n e)

  send_failed-Keeps :
      (d : Delivery) (n : Notification) (e : Error) (last : Bool) (k : SendKind)
      → Keeps none (send_failed cfg d n e last k)
  unfolding send_failed
  send_failed-Keeps d n e last unreachable =
      fail-Keeps d (some n) FailureReason.not_reachable (error_text e)
  send_failed-Keeps d n e last permanent =
      fail-Keeps d (some n) FailureReason.permanent (error_text e)
  send_failed-Keeps d n e true transient =
      fail-Keeps d (some n) FailureReason.max_attempts (error_text e)
  send_failed-Keeps d n e false transient = (tt, λ r. refl)

  after_send-Keeps :
      (d : Delivery) (n : Notification) (last : Bool) (r : Result Text)
      → Keeps none (after_send cfg d n last r)
  unfolding after_send
  after_send-Keeps d n last (err e) = send_failed-Keeps d n e last (send_kind_of e)
  after_send-Keeps d n last (ok p) =
      bind-Keeps none (record_sent d p (d.attempts + 1)) (λ e. finish cfg (some n) e)
        (record_sent-Keeps d p (d.attempts + 1)) (λ e. finish-Keeps (some n) e)

  after_lookup-Keeps :
      (d : Delivery) (n : Notification) (last : Bool) (r : Result (Unit {0}))
      → Keeps none (after_lookup cfg d n last r)
  unfolding after_lookup send
  after_lookup-Keeps d n last (ok _) = (tt, λ r. after_send-Keeps d n last r)
  after_lookup-Keeps d n last (err e) =
      if-Keeps none (is_type e invalid_input)
        (fail cfg d (some n) FailureReason.no_sender (error_text e)) (ret e)
        (fail-Keeps d (some n) FailureReason.no_sender (error_text e)) refl

  after_message-Keeps :
      (d : Delivery) (last : Bool) (r : Result Notification)
      → Keeps none (after_message cfg d last r)
  unfolding after_message deliver_message deliver_in_time
  after_message-Keeps d last (err e) =
      if-Keeps none (errors_is e notification_not_found)
        (fail cfg d none FailureReason.permanent (said (text "message is gone"))) (ret e)
        (fail-Keeps d none FailureReason.permanent (said (text "message is gone"))) refl
  after_message-Keeps d last (ok n) = (
    tt,
    λ now.
        if-Keeps none (is_expired n now) (fail cfg d (some n) FailureReason.expired no_detail)
          (deliver_in_time cfg d n last) (fail-Keeps d (some n) FailureReason.expired no_detail)
          (tt, λ r. after_lookup-Keeps d n last r),
  )

  deliver-Keeps : (d : Delivery) (last : Bool) → Keeps none (deliver cfg d last)
  unfolding deliver
  deliver-Keeps d last = (tt, λ r. after_message-Keeps d last r)

  after_read-Keeps : (attempt : ℕ) (r : Result Delivery) → Keeps none (after_read cfg attempt r)
  unfolding after_read
  after_read-Keeps attempt (err e) =
      if-Keeps none (errors_is e delivery_not_found) (ret nil) (ret e) refl refl
  after_read-Keeps attempt (ok d) =
      if-Keeps none (is_settled d.status) (ret nil) (deliver cfg d (leb cfg.max_attempts attempt))
        refl (deliver-Keeps d (leb cfg.max_attempts attempt))

  pub handle-Keeps : (id : SharedId) (attempt : ℕ) → Keeps none (handle cfg id attempt)
  unfolding handle
  handle-Keeps id attempt = (tt, λ r. after_read-Keeps attempt r)

  recover_each-Keeps : (now : Time) (ds : List Delivery) → Keeps none (recover_each cfg now ds)
  unfolding recover_each
  recover_each-Keeps now [] = refl
  recover_each-Keeps now (d ∷ ds) =
      bind-Keeps none (deliver cfg d (leb (d.updated_at + cfg.give_up) now))
        (λ _. recover_each cfg now ds) (deliver-Keeps d (leb (d.updated_at + cfg.give_up) now))
        (λ _. recover_each-Keeps now ds)

  after_claim-Keeps : (r : Result (List Delivery)) → Keeps none (after_claim cfg r)
  after_claim-Keeps (err e) = refl
  after_claim-Keeps (ok ds) = (tt, λ now. recover_each-Keeps now ds)

  pub recover-Keeps : Keeps none (recover cfg)
  unfolding recover
  recover-Keeps = (tt, λ r. after_claim-Keeps r)
