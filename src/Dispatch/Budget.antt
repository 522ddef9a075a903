-- ===== src/Dispatch/Budget.antt =====
-- What one call does to the announcements of a message: those made, those that a worker holds, and
-- those left to claim.
use srosha.Prelude.{
  ℕ, ◌+◌, ◌≡◌, refl, subst, ◌⊎◌, inl, inr, Bool, true, false, Option, none, some, List, [], ◌∷◌,
  arith, text_eqb, text_eqb_iff, ltb, Bool-cases, if◌then◌else◌,
}
use srosha.Errs.Result.{Result, ok}
use srosha.Shared.Id.{SharedId}
use srosha.Store
use srosha.Store.{Row, update_where, count_where, of_message, is_unannounced, announced_at}
use srosha.Store.Rows.{KeptAll, claim_announcement-KeptAll}
use srosha.Dispatch.{is_mine}
use srosha.Dispatch.Program.{
  Op, read_clock, draw_id, read_delivery, list_deliveries, claim_stale, claim_announcement, release,
  update_delivery, read_notification, find_sender, send_message, read_webhook, notify,
  webhook_success, webhook_failure, webhook_deactivate, Reply, Batch,
}
use srosha.Dispatch.World.{World, Fault, fine, before, after, Answer, under, exec}
use srosha.Dispatch.Settled.{exec-KeptAll}
use srosha.Dispatch.Discipline.{held_after, May}

-- How often the callback was called about a message.
abbrev pub told : SharedId → List Batch → ℕ
told nid [] = 0
told nid (b ∷ bs) = (if text_eqb b.notification_id nid then 1 else 0) + told nid bs

-- How many announcements of it the workers hold.
abbrev pub one : SharedId → Option SharedId → ℕ
one nid none = 0
one nid (some id) = if text_eqb id nid then 1 else 0

abbrev unclaimed : SharedId → World → ℕ
unclaimed nid w = count_where (is_unannounced nid) w.rows

-- Announcements made and held are none, or one and nothing is left to claim.
abbrev pub Budget : SharedId → ℕ → World → Type 0
Budget nid n w =
    (n + told nid w.notices ≡ 0) ⊎ ((n + told nid w.notices ≡ 1) × (unclaimed nid w ≡ 0))

kept-unclaimed :
    (nid : SharedId) (rs qs : List Row)
    → KeptAll rs qs
    → count_where (is_unannounced nid) rs ≡ 0
    → count_where (is_unannounced nid) qs ≡ 0
unfolding count_where
kept-unclaimed nid [] [] k h = refl
kept-unclaimed nid [] (_ ∷ _) k h = absurd k
kept-unclaimed nid (_ ∷ _) [] k h = absurd k
kept-unclaimed nid (r ∷ rs) (q ∷ qs) k h = ground (arith, kept-unclaimed nid rs qs k.1)

claimed-none_left :
    (nid : SharedId) (now : ℕ) (rs : List Row)
    → count_where (is_unannounced nid) (update_where (is_unannounced nid) (announced_at now) rs) ≡ 0
unfolding count_where update_where
claimed-none_left nid now [] = refl
claimed-none_left nid now (r ∷ rs) = ground (arith, claimed-none_left nid now rs)

pub same-Budget : (nid : SharedId) (m n : ℕ) (w : World) → m ≡ n → Budget nid m w → Budget nid n w
same-Budget nid m n w e b = subst (λ i. Budget nid i w) e b

quiet-Budget :
    (nid : SharedId) (m : ℕ) (w v : World)
    → KeptAll w.rows v.rows
    → v.notices ≡ w.notices
    → Budget nid m w
    → Budget nid m v
quiet-Budget nid m w v k same (inl e) = inl (rw same e)
quiet-Budget nid m w v k same (inr (e, c)) = inr (rw same e, kept-unclaimed nid w.rows v.rows k c)

under-notices :
    {A : Type 0} (f : Fault) (w : World) (done : Result A × World)
    → done.1.notices ≡ w.notices
    → (under f w done).1.notices ≡ w.notices
under-notices fine w (r, v) h = h
under-notices before w (r, v) h = refl
under-notices after w (r, v) h = h

-- A call that neither claims nor announces.
abbrev IsQuiet : Op → Type 0
IsQuiet (claim_announcement nid now) = ⊥
IsQuiet (notify w b) = ⊥
IsQuiet o = Unit {0}

exec-notices : (o : Op) (a : Answer) (w : World) → IsQuiet o → (exec o a w).1.notices ≡ w.notices
unfolding exec
exec-notices read_clock a w q = refl
exec-notices draw_id a w q = refl
exec-notices (read_delivery id) a w q = under-notices a.fault w _ refl
exec-notices (list_deliveries nid) a w q = under-notices a.fault w _ refl
exec-notices (release id) a w q = under-notices a.fault w _ refl
exec-notices (read_notification id) a w q = under-notices a.fault w _ refl
exec-notices (claim_stale older lease limit) a w q = under-notices a.fault w _ refl
exec-notices (claim_announcement nid now) a w q = absurd q
exec-notices (update_delivery d) a w q = under-notices a.fault w _ refl
exec-notices (find_sender s) a w q = refl
exec-notices (send_message s m) a w q = refl
exec-notices (read_webhook source_id) a w q = under-notices a.fault w _ refl
exec-notices (notify h b) a w q = absurd q
exec-notices (webhook_success id now) a w q = under-notices a.fault w _ refl
exec-notices (webhook_failure id now) a w q = under-notices a.fault w _ refl
exec-notices (webhook_deactivate id now) a w q = under-notices a.fault w _ refl

quiet-held : (h : Option SharedId) (o : Op) (r : Reply o) → IsQuiet o → held_after h o r ≡ h
quiet-held h read_clock r q = refl
quiet-held h draw_id r q = refl
quiet-held h (read_delivery id) r q = refl
quiet-held h (list_deliveries nid) r q = refl
quiet-held h (release id) r q = refl
quiet-held h (read_notification id) r q = refl
quiet-held h (claim_stale older lease limit) r q = refl
quiet-held h (claim_announcement nid now) r q = absurd q
quiet-held h (update_delivery d) r q = refl
quiet-held h (find_sender s) r q = refl
quiet-held h (send_message s m) r q = refl
quiet-held h (read_webhook source_id) r q = refl
quiet-held h (notify w b) r q = absurd q
quiet-held h (webhook_success id now) r q = refl
quiet-held h (webhook_failure id now) r q = refl
quiet-held h (webhook_deactivate id now) r q = refl

-- What a claim adds to the announcements in hand.
abbrev claim_adds : SharedId → SharedId → World → ℕ
claim_adds nid id w = if ltb 0 (unclaimed id w) then one nid (some id) else 0

claim_own :
    (c n t : ℕ)
    → (n + t ≡ 0) ⊎ ((n + t ≡ 1) × (c ≡ 0))
    → let m : ℕ = if ltb 0 c then 1 else 0 in (m + n + t ≡ 0) ⊎ (m + n + t ≡ 1)
claim_own c n t b = ground arith

claim-Budget :
    (nid id : SharedId) (now n : ℕ) (w : World)
    → Budget nid n w
    → Budget nid
        (claim_adds nid id w + n)
        (record w { rows = (Store.claim_announcement id now w.rows).1 })
unfolding Store.claim_announcement
claim-Budget nid id now n w b = elim (Bool-cases (text_eqb id nid)) [
  | inl t ↦
      rw (((text_eqb_iff id nid).0 t), text_same nid)
        (elim (claim_own (unclaimed nid w) n (told nid w.notices) b) [
          | inl e ↦ inl e
          | inr e ↦ inr (e, claimed-none_left nid now w.rows)
        ])
  | inr t ↦
      rw (t, if_same (ltb 0 (unclaimed id w)))
        (same-Budget nid n (0 + n) (record w { rows = (Store.claim_announcement id now w.rows).1 })
          (omega arith)
          (quiet-Budget nid n w (record w { rows = (Store.claim_announcement id now w.rows).1 })
            (claim_announcement-KeptAll id now w.rows) refl b))
]
  where
    text_same : (s : SharedId) → text_eqb s s ≡ true
    text_same s = (text_eqb_iff s s).1 refl

    if_same : (b : Bool) → let m : ℕ = if b then 0 else 0 in m ≡ 0
    if_same true = refl
    if_same false = refl

one-if :
    (nid id : SharedId) (b : Bool)
    → one nid (if b then some id else none) ≡ (if b then one nid (some id) else 0)
one-if nid id true = refl
one-if nid id false = refl

quiet_call :
    (nid : SharedId) (o : Op) (h : Option SharedId) (a : Answer) (w : World) (n : ℕ)
    → IsQuiet o
    → Budget nid (one nid h + n) w
    → Budget nid (one nid (held_after h o (exec o a w).0) + n) (exec o a w).1
quiet_call nid o h a w n q b = rw (quiet-held h o (exec o a w).0 q) (
    quiet-Budget nid (one nid h + n) w (exec o a w).1 (exec-KeptAll o a w) (exec-notices o a w q) b)

-- One call by a worker that holds `h`, beside others that hold `n`.
pub exec-Budget :
    (nid : SharedId) (o : Op) (h : Option SharedId) (a : Answer) (w : World) (n : ℕ)
    → May h o
    → Budget nid (one nid h + n) w
    → Budget nid (one nid (held_after h o (exec o a w).0) + n) (exec o a w).1
unfolding exec Store.claim_announcement
exec-Budget nid read_clock h a w n may b = quiet_call nid read_clock h a w n tt b
exec-Budget nid draw_id h a w n may b = quiet_call nid draw_id h a w n tt b
exec-Budget nid (read_delivery id) h a w n may b = quiet_call nid (read_delivery id) h a w n tt b
exec-Budget nid (list_deliveries nid') h a w n may b =
    quiet_call nid (list_deliveries nid') h a w n tt b
exec-Budget nid (release id) h a w n may b = quiet_call nid (release id) h a w n tt b
exec-Budget nid (read_notification id) h a w n may b =
    quiet_call nid (read_notification id) h a w n tt b
exec-Budget nid (claim_stale older lease limit) h a w n may b =
    quiet_call nid (claim_stale older lease limit) h a w n tt b
exec-Budget nid (update_delivery d) h a w n may b = quiet_call nid (update_delivery d) h a w n tt b
exec-Budget nid (find_sender s) h a w n may b = quiet_call nid (find_sender s) h a w n tt b
exec-Budget nid (send_message s m) h a w n may b = quiet_call nid (send_message s m) h a w n tt b
exec-Budget nid (read_webhook source_id) h a w n may b =
    quiet_call nid (read_webhook source_id) h a w n tt b
exec-Budget nid (webhook_success id now) h a w n may b =
    quiet_call nid (webhook_success id now) h a w n tt b
exec-Budget nid (webhook_failure id now) h a w n may b =
    quiet_call nid (webhook_failure id now) h a w n tt b
exec-Budget nid (webhook_deactivate id now) h a w n may b =
    quiet_call nid (webhook_deactivate id now) h a w n tt b
exec-Budget nid (notify hook batch) h a w n may b = let b' = rw may at b in ground arith
exec-Budget nid (claim_announcement id now) h a w n may b = under_fault a.fault
  where
    start : Budget nid n w
    start = same-Budget nid (one nid h + n) n w (rw may (omega arith)) b

    more : Budget nid (0 + n) w
    more = same-Budget nid n (0 + n) w (omega arith) start

    under_fault :
        (f : Fault)
        → let done = under f w (
            let (mine, rows) = Store.claim_announcement id now w.rows in
            (ok mine, record w { rows = rows })) in
          Budget nid (one nid (if is_mine done.0 then some id else none) + n) done.1
    under_fault fine =
        rw (one-if nid id (Store.claim_announcement id now w.rows).0)
          (claim-Budget nid id now n w start)
    under_fault before = more
    under_fault after =
        quiet-Budget nid (0 + n) w (record w { rows = (Store.claim_announcement id now w.rows).1 })
          (claim_announcement-KeptAll id now w.rows) refl more
