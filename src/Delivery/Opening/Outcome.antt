-- ===== src/Delivery/Opening/Outcome.antt =====
-- When `NewSet` succeeds, and what it returns.
use srosha.Prelude.{
  ℕ, ◌+◌, ◌≡◌, refl, sym, ap, ◌≢◌, Bool, true, false, none, some, List, [], ◌∷◌, arith, Text, any,
  All, All-map, ◌==◌, text_eqb_iff,
}
use srosha.Errs.Result.{ok, then_inv, bind_inv, refuse_if, refuse_if_inv}
use srosha.Shared.Id.{SharedId, is_zero}
use srosha.Shared.Channel.{valid}
use srosha.Shared.Channel.Names.{channel_eqb_refl, channel_eqb-eq}
use srosha.Shared.Recipient.{Recipient, validate, recipient_eqb}
use srosha.Delivery.{Time, Delivery, pending, no_detail, no_failure}
use srosha.Delivery.Opening.{SenderNames, IdFunc, sender_for, opened, open_each, no_one, new_set}

-- No recipient is listed twice.
abbrev pub Distinct : List Recipient → Type 0
Distinct [] = Unit
Distinct (r ∷ rs) = All (λ q. q ≢ r) rs × Distinct rs

-- One pending delivery for each recipient, from the k-th identifier on, which nobody tried yet.
abbrev pub opened_all : SharedId → SenderNames → Time → IdFunc → ℕ → List Recipient → List Delivery
opened_all nid senders now ids k [] = []
opened_all nid senders now ids k (r ∷ rs) =
    record {
      id = ids k;
      notification_id = nid;
      recipient = r;
      sender_name = sender_for senders r.channel;
      status = pending;
      attempts = 0;
      last_error = no_detail;
      failure_reason = no_failure;
      provider_message_id = [];
      notified_at = none;
      updated_at = now;
    }
    ∷ opened_all nid senders now ids (k + 1) rs

recipient_eqb_refl : (r : Recipient) → recipient_eqb r r ≡ true
unfolding recipient_eqb
recipient_eqb_refl r = rw (channel_eqb_refl r.channel) ((text_eqb_iff r.address r.address).1 refl)

-- The test against the recipients seen so far, as a statement.
any-false :
    (r : Recipient) (seen : List Recipient)
    → any (recipient_eqb r) seen ≡ false
    → All (λ q. q ≢ r) seen
any-false r [] h = tt
any-false r (q ∷ seen) h = (
  λ e. ground (arith, recipient_eqb_refl r, ap (recipient_eqb r) e),
  any-false r seen (ground arith),
)

validate-valid :
    (is_mail : Text → Bool) (r : Recipient) → validate is_mail r ≡ ok tt → valid r.channel ≡ true
unfolding validate
validate-valid is_mail r h = ground arith

recipient_eqb-eq :
    (r q : Recipient)
    → valid r.channel ≡ true
    → valid q.channel ≡ true
    → recipient_eqb r q ≡ true
    → q ≡ r
unfolding recipient_eqb
recipient_eqb-eq r q hr hq h =
    ground (arith, channel_eqb-eq r.channel q.channel, text_eqb_iff r.address q.address)

none_seen :
    (is_mail : Text → Bool) (r : Recipient) (seen : List Recipient)
    → validate is_mail r ≡ ok tt
    → All (λ q. validate is_mail q ≡ ok tt) seen
    → All (λ q. q ≢ r) seen
    → any (recipient_eqb r) seen ≡ false
none_seen is_mail r [] v vs h = refl
none_seen is_mail r (q ∷ seen) v vs h = ground (
  arith,
  validate-valid is_mail r v,
  validate-valid is_mail q vs.0,
  recipient_eqb-eq r q,
  none_seen is_mail r seen v vs.1 h.1,
)

module _ (is_mail : Text → Bool) (nid : SharedId) (senders : SenderNames) (now : Time)
    (ids : IdFunc) where
  open_each_sound :
      (seen : List Recipient) (k : ℕ) (rs : List Recipient) (ds : List Delivery)
      → open_each is_mail nid senders now ids seen k rs ≡ ok ds
      → (ds ≡ opened_all nid senders now ids k rs)
        × All (λ r. All (λ q. q ≢ r) seen) rs
        × Distinct rs
        × All (λ r. validate is_mail r ≡ ok tt) rs
  unfolding open_each opened
  open_each_sound seen k [] ds h = (cc, tt, tt, tt)
  open_each_sound seen k (r ∷ rs) ds h =
      let (good, h1) = then_inv (validate is_mail r) _ h in
      let (new, h2) = then_inv (refuse_if (any (recipient_eqb r) seen) _) _ h1 in
      let (_, h3) = then_inv (refuse_if (is_zero (ids k)) _) _ h2 in
      let (rest, e, h4) =
        bind_inv (open_each is_mail nid senders now ids (r ∷ seen) (k + 1) rs) _ h3 in
      let (same, apart, distinct, valid) = open_each_sound (r ∷ seen) (k + 1) rs rest e in
      (
        cc,
        (any-false r seen (refuse_if_inv _ _ new), All-map _ _ rs (λ q a. a.1) apart),
        (All-map _ _ rs (λ q a e'. a.0 (sym e')) apart, distinct),
        (good, valid),
      )

  open_each_complete :
      ((k : ℕ) → is_zero (ids k) ≡ false)
      → (seen : List Recipient) (k : ℕ) (rs : List Recipient)
      → All (λ q. validate is_mail q ≡ ok tt) seen
      → All (λ r. validate is_mail r ≡ ok tt) rs
      → All (λ r. All (λ q. q ≢ r) seen) rs
      → Distinct rs
      → open_each is_mail nid senders now ids seen k rs ≡ ok (opened_all nid senders now ids k rs)
  unfolding open_each opened
  open_each_complete fresh seen k [] vs v apart d = refl
  open_each_complete fresh seen k (r ∷ rs) vs v apart d =
      rw (v.0, none_seen is_mail r seen v.0 vs apart.0, fresh k)
        (rw
          (open_each_complete fresh (r ∷ seen) (k + 1) rs (v.0, vs) v.1 (both_apart rs d.0 apart.1)
            d.1)
          refl)
    where
      both_apart :
          (qs : List Recipient)
          → All (λ q. q ≢ r) qs
          → All (λ p. All (λ q. q ≢ p) seen) qs
          → All (λ p. All (λ q. q ≢ p) (r ∷ seen)) qs
      both_apart [] a b = tt
      both_apart (q ∷ qs) a b = ((λ e. a.0 (sym e), b.0), both_apart qs a.1 b.1)

  nothing_seen : (rs : List Recipient) → All (λ r. All (λ q. q ≢ r) []) rs
  nothing_seen [] = tt
  nothing_seen (r ∷ rs) = (tt, nothing_seen rs)

  -- If `NewSet` returns deliveries, the recipients were at least one, all valid and all distinct,
  -- and the deliveries are one for each of them, in their order, which is pending, with no attempt
  -- and no outcome, with the identifiers in the order in which they were generated.
  pub new_set_sound :
      (rs : List Recipient) (ds : List Delivery)
      → new_set is_mail nid rs senders (some ids) now ≡ ok ds
      → (ds ≡ opened_all nid senders now ids 0 rs)
        × (rs ≢ [])
        × Distinct rs
        × All (λ r. validate is_mail r ≡ ok tt) rs
  unfolding new_set
  new_set_sound rs ds h =
      let (_, h1) = then_inv (refuse_if (is_zero nid) _) _ h in
      let (_, h2) = then_inv (refuse_if (now == 0) _) _ h1 in
      let (some_one, h3) = then_inv (refuse_if (no_one rs) _) _ h2 in
      let (same, _, distinct, good) = open_each_sound [] 0 rs ds h3 in
      (same, λ e. cc (ap no_one e, refuse_if_inv (no_one rs) _ some_one), distinct, good)

  -- With a message, a time and a generator that gives no empty identifier, every list of at least
  -- one recipient, all valid and all distinct, is accepted.
  pub new_set_complete :
      (rs : List Recipient)
      → is_zero nid ≡ false
      → now ≢ 0
      → ((k : ℕ) → is_zero (ids k) ≡ false)
      → rs ≢ []
      → Distinct rs
      → All (λ r. validate is_mail r ≡ ok tt) rs
      → new_set is_mail nid rs senders (some ids) now ≡ ok (opened_all nid senders now ids 0 rs)
  unfolding new_set
  new_set_complete [] z t fresh ne d v = absurd (ne refl)
  new_set_complete (r ∷ rs) z t fresh ne d v =
      let later : (now == 0) ≡ false = ground arith in
      rw (z, later) (open_each_complete fresh [] 0 (r ∷ rs) tt v (nothing_seen (r ∷ rs)) d)
