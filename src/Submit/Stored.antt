-- ===== src/Submit/Stored.antt =====
-- What a request leaves behind: all of a message or nothing, and one message for one key.
use srosha.Prelude.{
  ◌≡◌, refl, ap, subst, sym, ◌∙◌, ◌⊎◌, inl, inr, false, Option, none, some, List, [], ◌∷◌, ◌++◌,
  map, is_empty, Bool-cases,
}
use srosha.Errs.{Error, errors_is, duplicate_key}
use srosha.Effect.{Fault, fine, before, after, driver_failure}
use srosha.Errs.Result.{
  Result, ok, err, ◌>>◌, bind_inv, then_inv, refuse_if, refuse_if_inv, ok_injective,
}
use srosha.Shared.Recipient.{Recipient}
use srosha.Delivery.{Delivery}
use srosha.Delivery.Opening.{new_set}
use srosha.Delivery.Opening.Outcome.{opened_all, new_set_sound}
use srosha.Notification
use srosha.Notification.{Notification}
use srosha.Notification.Accepted.{IsAccepted, new-IsAccepted}
use srosha.Source.{Source}
use srosha.Source.Routes.{resolve_routes}
use srosha.Submit.{
  Command, Answer, Tables, Meeting, admit, with_key, duplicate_of, accepted, answered, looked_up,
  check_senders, origin, request, is_taken, written, second_answer, raced, event, ended, committed,
  to_be_sent, resolved, after_look, after_admit, submit,
}

-- A message that is new, with what was stored of it.
pub record IsWritten (m : Meeting) (cmd : Command) (t t' : Tables) : Type 0 where
  pub source : Source
  pub recipients : List Recipient
  pub message : Notification
  pub admitted : admit m ≡ ok source
  pub resolution : resolve_routes m.is_mail source cmd.routes ≡ ok recipients
  pub acceptance : IsAccepted (origin source) (request cmd) m.now message
  pub stored : t'.messages ≡ message ∷ (m.others t).messages
  pub new_key : is_taken message (m.others t).messages ≡ false
  pub opened :
      t'.deliveries
      ≡ opened_all message.id cmd.senders m.now m.ids 0 recipients ++ (m.others t).deliveries

-- A message that was stored, answered with, and handed to the broker.
abbrev pub IsStored : Meeting → Command → Tables → Result Answer → Tables → Type 0
IsStored m cmd t r t' =
    (w : IsWritten m cmd t t') × (r ≡ ok (accepted w.message))
    × (t'.events
        ≡ map (event w.message) (opened_all w.message.id cmd.senders m.now m.ids 0 w.recipients)
          ++ (m.others t).events)

-- A message that was stored by a commit whose reply was lost.
abbrev pub IsUnanswered : Meeting → Command → Tables → Result Answer → Tables → Type 0
IsUnanswered m cmd t r t' =
    IsWritten m cmd t t'
    × (e : Error) × (r ≡ err e)
    × (m.commit ≡ after)
    × (t'.events ≡ (m.others t).events)

-- The tables as they were found, or as the others left them.
abbrev pub IsUntouched : Meeting → Tables → Tables → Type 0
IsUntouched m t t' = (t' ≡ t) ⊎ (t' ≡ m.others t)

abbrev pub IsRepeated : Meeting → Command → Tables → Result Answer → Tables → Type 0
IsRepeated m cmd t r t' =
    (n : Notification) × (r ≡ ok (duplicate_of n))
    × (with_key cmd.source_id cmd.idempotency_key t'.messages ≡ some n)
    × IsUntouched m t t'

abbrev pub IsRefused : Meeting → Tables → Result Answer → Tables → Type 0
IsRefused m t r t' = (e : Error) × (r ≡ err e) × IsUntouched m t t'

abbrev pub IsHandled : Meeting → Command → Tables → Result Answer × Tables → Type 0
IsHandled m cmd t (r, t') =
    IsStored m cmd t r t'
    ⊎ (IsUnanswered m cmd t r t' ⊎ (IsRepeated m cmd t r t' ⊎ IsRefused m t r t'))

module _ (m : Meeting) (cmd : Command) (t : Tables) where
  second-IsHandled :
      (e : Error) (o : Option Notification)
      → with_key cmd.source_id cmd.idempotency_key (m.others t).messages ≡ o
      → IsHandled m cmd t (second_answer o e, m.others t)
  second-IsHandled e none h = inr (inr (inr (e, refl, inr refl)))
  second-IsHandled e (some n) h = inr (inr (inl (n, refl, h, inr refl)))

  raced-IsHandled :
      (e : Error) (read : Result (Unit {0}))
      → IsHandled m cmd t (
        elim read [
          | err _ ↦ err e
          | ok _ ↦
              second_answer (with_key cmd.source_id cmd.idempotency_key (m.others t).messages) e
        ],
        m.others t,
      )
  raced-IsHandled e (err _) = inr (inr (inr (e, refl, inr refl)))
  raced-IsHandled e (ok _) =
      second-IsHandled e (with_key cmd.source_id cmd.idempotency_key (m.others t).messages) refl

  -- What the transaction made.
  abbrev IsMade : Source → List Recipient → Notification × List Delivery → Type 0
  IsMade s rs (n, ds) =
      (Notification.new m.new_id (origin s) (request cmd) m.now ≡ ok n)
      × (is_taken n (m.others t).messages ≡ false)
      × (new_set m.is_mail n.id rs cmd.senders (some m.ids) m.now ≡ ok ds)

  written-IsMade :
      (s : Source) (rs : List Recipient) (x : Notification × List Delivery)
      → written m cmd s rs (m.others t).messages ≡ ok x
      → IsMade s rs x
  unfolding written
  written-IsMade s rs x h =
      let (n, made, h1) = bind_inv (Notification.new m.new_id (origin s) (request cmd) m.now) _ h in
      let (_, h2) = then_inv m.write_message _ h1 in
      let (free, h3) = then_inv (refuse_if (is_taken n (m.others t).messages) _) _ h2 in
      let (ds, opened, h4) =
        bind_inv (new_set m.is_mail n.id rs cmd.senders (some m.ids) m.now) _ h3 in
      let (_, h5) = then_inv m.write_deliveries _ h4 in
      subst (λ y. IsMade s rs y) (ok_injective (n, ds) x h5)
        (made, refuse_if_inv (is_taken n (m.others t).messages) _ free, opened)

  -- What was stored, in the tables that are left.
  abbrev what_was_written :
      (s : Source) (rs : List Recipient) (n : Notification) (ds : List Delivery) (t' : Tables)
      → admit m ≡ ok s
      → resolve_routes m.is_mail s cmd.routes ≡ ok rs
      → IsMade s rs (n, ds)
      → t'.messages ≡ n ∷ (m.others t).messages
      → t'.deliveries ≡ ds ++ (m.others t).deliveries
      → IsWritten m cmd t t'
  what_was_written s rs n ds t' a res (made, free, opened) messages deliveries = record {
    source = s;
    recipients = rs;
    message = n;
    admitted = a;
    resolution = res;
    acceptance = new-IsAccepted m.new_id (origin s) (request cmd) m.now n made;
    stored = messages;
    new_key = free;
    opened =
        deliveries
        ∙ ap (λ (x : List Delivery). x ++ (m.others t).deliveries)
            (new_set_sound m.is_mail n.id cmd.senders m.now m.ids rs ds opened).0;
  }

  ended-IsHandled :
      (s : Source) (rs : List Recipient) (n : Notification) (ds : List Delivery) (c : Fault)
      → admit m ≡ ok s
      → resolve_routes m.is_mail s cmd.routes ≡ ok rs
      → IsMade s rs (n, ds)
      → m.commit ≡ c
      → IsHandled m cmd t (ended n ds (m.others t) c)
  unfolding ended
  ended-IsHandled s rs n ds fine a res made c =
      let (same, _, _, _) = new_set_sound m.is_mail n.id cmd.senders m.now m.ids rs ds made.2 in
      inl (
        what_was_written s rs n ds _ a res made refl refl,
        refl,
        ap (λ (x : List Delivery). map (event n) x ++ (m.others t).events) same,
      )
  ended-IsHandled s rs n ds before a res made c = inr (inr (inr (driver_failure, refl, inr refl)))
  ended-IsHandled s rs n ds after a res made c =
      inr (inl (what_was_written s rs n ds _ a res made refl refl, driver_failure, refl, c, refl))

  committed-IsHandled :
      (s : Source) (rs : List Recipient) (w : Result (Notification × List Delivery))
      → admit m ≡ ok s
      → resolve_routes m.is_mail s cmd.routes ≡ ok rs
      → (m.begin >> written m cmd s rs (m.others t).messages) ≡ w
      → IsHandled m cmd t (committed m cmd (m.others t) w)
  unfolding committed raced
  committed-IsHandled s rs (err e) a res h = elim (Bool-cases (errors_is e duplicate_key)) [
    | inl d ↦ rw d (raced-IsHandled e m.second_read)
    | inr d ↦ rw d (inr (inr (inr (e, refl, inr refl))))
  ]
  committed-IsHandled s rs (ok (n, ds)) a res h =
      let (_, made) = then_inv m.begin _ h in
      ended-IsHandled s rs n ds m.commit a res (written-IsMade s rs (n, ds) made) refl

  to_be_sent-IsHandled :
      (s : Source) (rs : Result (List Recipient))
      → admit m ≡ ok s
      → resolved m cmd s ≡ rs
      → IsHandled m cmd t (to_be_sent m cmd t s rs)
  unfolding to_be_sent resolved
  to_be_sent-IsHandled s (err e) a h = inr (inr (inr (e, refl, inl refl)))
  to_be_sent-IsHandled s (ok rs) a h =
      let (qs, res, h1) = bind_inv (resolve_routes m.is_mail s cmd.routes) _ h in
      let (_, h2) = then_inv (check_senders m cmd.senders) _ h1 in
      committed-IsHandled s rs _ a (res ∙ h2) refl

  found-IsHandled :
      (answer : Answer) (o : Option Notification)
      → with_key cmd.source_id cmd.idempotency_key t.messages ≡ o
      → answered o ≡ some answer
      → IsHandled m cmd t (ok answer, t)
  found-IsHandled answer none h e = cc
  found-IsHandled answer (some n) h e =
      let same : duplicate_of n ≡ answer = cc in inr (inr (inl (n, ap ok (sym same), h, inl refl)))

  after_look-IsHandled :
      (s : Source) (found : Result (Option Answer))
      → admit m ≡ ok s
      → looked_up m cmd t ≡ found
      → IsHandled m cmd t (after_look m cmd t s found)
  unfolding after_look looked_up
  after_look-IsHandled s (err e) a h = inr (inr (inr (e, refl, inl refl)))
  after_look-IsHandled s (ok none) a h = to_be_sent-IsHandled s (resolved m cmd s) a refl
  after_look-IsHandled s (ok (some answer)) a h = elim (Bool-cases (is_empty cmd.idempotency_key)) [
    | inl k ↦ let bad : ok none ≡ ok (some answer) = rw k at h in cc
    | inr k ↦
        let (_, same) = then_inv m.first_read _ (rw k at h) in
        found-IsHandled answer (with_key cmd.source_id cmd.idempotency_key t.messages) refl
          (ok_injective _ (some answer) same)
  ]

  after_admit-IsHandled :
      (s : Result Source) → admit m ≡ s → IsHandled m cmd t (after_admit m cmd t s)
  unfolding after_admit
  after_admit-IsHandled (err e) a = inr (inr (inr (e, refl, inl refl)))
  after_admit-IsHandled (ok s) a = after_look-IsHandled s (looked_up m cmd t) a refl

-- A request ends in one of four ways. A message is stored with one pending delivery for each
-- recipient that the routes resolve to, and an event is handed to the broker for each; the source
-- was admitted, the message is as `New` promises, and no other message of the source had its key.
-- Or all of that was stored by a commit whose reply was lost, and an error is returned, and no
-- event is handed to the broker. Or the answer is that of a stored message with the key of the
-- request. Or an error is returned. In the last two the request leaves nothing of its own in the
-- tables.
pub submit-IsHandled :
    (m : Meeting) (cmd : Command) (t : Tables) → IsHandled m cmd t (submit m cmd t)
unfolding submit
submit-IsHandled m cmd t = after_admit-IsHandled m cmd t (admit m) refl

-- No two messages of one source have one key.
abbrev pub UniqueKeys : List Notification → Type 0
UniqueKeys [] = Unit {0}
UniqueKeys (n ∷ ns) = (is_taken n ns ≡ false) × UniqueKeys ns

-- If no two messages of one source have one key, before a request and in what others have
-- committed meanwhile, then no two have one after it.
pub submit-UniqueKeys :
    (m : Meeting) (cmd : Command) (t : Tables)
    → UniqueKeys t.messages
    → UniqueKeys (m.others t).messages
    → UniqueKeys (submit m cmd t).1.messages
submit-UniqueKeys m cmd t h h' = elim (submit-IsHandled m cmd t) [
  | inl (w, _, _) ↦ subst UniqueKeys (sym w.stored) (w.new_key, h')
  | inr (inl (w, _, _, _, _)) ↦ subst UniqueKeys (sym w.stored) (w.new_key, h')
  | inr (inr (inl (_, _, _, u))) ↦ untouched u
  | inr (inr (inr (_, _, u))) ↦ untouched u
]
  where
    untouched : IsUntouched m t (submit m cmd t).1 → UniqueKeys (submit m cmd t).1.messages
    untouched (inl e) = subst (λ (x : Tables). UniqueKeys x.messages) (sym e) h
    untouched (inr e) = subst (λ (x : Tables). UniqueKeys x.messages) (sym e) h'
