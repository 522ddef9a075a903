-- ===== src/Store/Rows.antt =====
-- What the statements may do to the table: outcomes and announcements are written once.
use srosha.Prelude.{ℕ, ◌≡◌, refl, ◌⊎◌, inl, inr, Bool, true, none, List, [], ◌∷◌, arith, Bool-cases}
use srosha.Shared.Id.{SharedId}
use srosha.Delivery.{Time, Status, pending, sent, failed, other, status_eqb, Delivery}
use srosha.Store.{
  Row, update_where, is_pending_with, with_outcome, update, is_unannounced, announced_at,
  claim_announcement, release, claimed, claim_stale,
}

pub record SameOutcome (r q : Row) : Type 0 where
  pub status : q.status ≡ r.status
  pub attempts : q.attempts ≡ r.attempts
  pub detail : q.last_error ≡ r.last_error
  pub reason : q.failure_reason ≡ r.failure_reason
  pub provider : q.provider_message_id ≡ r.provider_message_id
  pub at : q.updated_at ≡ r.updated_at

-- What may become of a row: its message, recipient and sender stay, an outcome is written only
-- while it is pending, and the announcement is stamped only where there is none.
pub record Kept (r q : Row) : Type 0 where
  pub id : q.id ≡ r.id
  pub message : q.notification_id ≡ r.notification_id
  pub recipient : q.recipient ≡ r.recipient
  pub sender : q.sender_name ≡ r.sender_name
  pub outcome : (r.status ≡ pending) ⊎ SameOutcome r q
  pub announced : (r.notified_at ≡ none) ⊎ (q.notified_at ≡ r.notified_at)

-- Row by row, with none added and none lost.
abbrev pub KeptAll : List Row → List Row → Type 0
KeptAll [] [] = Unit
KeptAll [] (_ ∷ _) = ⊥
KeptAll (_ ∷ _) [] = ⊥
KeptAll (r ∷ rs) (q ∷ qs) = Kept r q × KeptAll rs qs

Kept-refl : (r : Row) → Kept r r
Kept-refl r = record {
  id = refl;
  message = refl;
  recipient = refl;
  sender = refl;
  outcome = inr (record {
    status = refl;
    attempts = refl;
    detail = refl;
    reason = refl;
    provider = refl;
    at = refl;
  });
  announced = inr refl;
}

pub KeptAll-refl : (rs : List Row) → KeptAll rs rs
KeptAll-refl [] = tt
KeptAll-refl (r ∷ rs) = (Kept-refl r, KeptAll-refl rs)

Kept-trans : (a b c : Row) → Kept a b → Kept b c → Kept a c
Kept-trans a b c h k = ground arith

pub KeptAll-trans : (xs ys zs : List Row) → KeptAll xs ys → KeptAll ys zs → KeptAll xs zs
KeptAll-trans [] [] [] h k = tt
KeptAll-trans (a ∷ xs) (b ∷ ys) (c ∷ zs) h k =
    (Kept-trans a b c h.0 k.0, KeptAll-trans xs ys zs h.1 k.1)
KeptAll-trans [] [] (_ ∷ _) h k = k
KeptAll-trans [] (_ ∷ _) zs h k = absurd h
KeptAll-trans (_ ∷ _) [] zs h k = absurd h
KeptAll-trans (_ ∷ _) (_ ∷ _) [] h k = k

pub status_eqb-pending : (s : Status) → status_eqb s pending ≡ true → s ≡ pending
unfolding status_eqb
status_eqb-pending pending h = refl
status_eqb-pending sent h = cc
status_eqb-pending failed h = cc
status_eqb-pending (other t) h = cc

pub update_where-KeptAll :
    (p : Row → Bool) (f : Row → Row) (rs : List Row)
    → ((r : Row) → p r ≡ true → Kept r (f r))
    → KeptAll rs (update_where p f rs)
unfolding update_where
update_where-KeptAll p f [] h = tt
update_where-KeptAll p f (r ∷ rs) h = elim (Bool-cases (p r)) [
  | inl e ↦ rw e (h r e, update_where-KeptAll p f rs h)
  | inr e ↦ rw e (Kept-refl r, update_where-KeptAll p f rs h)
]

-- The four statements that write.
pub update-KeptAll : (d : Delivery) (rs : List Row) → KeptAll rs (update d rs).1
unfolding update
update-KeptAll d rs =
    update_where-KeptAll (is_pending_with d.id) (with_outcome d) rs
      (λ r e. ground (arith, status_eqb-pending r.status))

pub claim_announcement-KeptAll :
    (nid : SharedId) (now : Time) (rs : List Row) → KeptAll rs (claim_announcement nid now rs).1
unfolding claim_announcement
claim_announcement-KeptAll nid now rs =
    update_where-KeptAll (is_unannounced nid) (announced_at now) rs (λ r e. ground arith)

pub release-KeptAll : (id : SharedId) (rs : List Row) → KeptAll rs (release id rs)
unfolding release
release-KeptAll id rs = update_where-KeptAll (is_pending_with id) _ rs (λ r e. ground arith)

pub claim_stale-KeptAll :
    (now : Time) (older lease limit : ℕ) (rs : List Row)
    → KeptAll rs (claim_stale now older lease limit rs).1
unfolding claim_stale
claim_stale-KeptAll now older lease limit rs =
    update_where-KeptAll _ (claimed now) rs (λ r e. ground arith)

pub pending-status_eqb : (s : Status) → s ≡ pending → status_eqb s pending ≡ true
unfolding status_eqb
pending-status_eqb s e = rw e refl
