-- ===== src/Notification/Accepted.antt =====
-- What an accepted message is.
use srosha.Prelude.{
  ◌≡◌, refl, subst, ◌↔◌, Bool, true, false, not, is_empty, arith, ◌≤ℤ◌, ltb_ℤ, ◌==◌, eqb_ℤ,
}
use srosha.Errs.Result.{ok, refuse_if, refuse_if_inv, then_inv}
use srosha.Shared.Id.{SharedId, is_zero}
use srosha.Shared.Priority.{Priority, valid, clamp}
use srosha.Shared.Priority.Order.{clamp_bounds}
use srosha.Notification.{
  Time, Notification, Origin, Request, has_passed, built, new, was_downgraded, is_expired,
}

pub record IsAccepted (org : Origin) (req : Request) (now : Time) (n : Notification) : Type 0 where
  pub identified : is_zero n.id ≡ false
  pub from_source : n.source_id ≡ org.id
  pub same_key : n.idempotency_key ≡ req.idempotency_key
  pub has_body : is_empty n.body ≡ false
  pub known_priority : valid n.requested_priority ≡ true
  pub as_requested : n.requested_priority ≡ req.priority
  pub not_expired : is_expired n now ≡ false
  pub within_ceiling : n.effective_priority ≤ℤ org.max_priority
  pub not_raised : n.effective_priority ≤ℤ req.priority
  pub downgrade_told : (was_downgraded n ≡ true) ↔ (ltb_ℤ org.max_priority req.priority ≡ true)

not-false : (b : Bool) → not b ≡ false → b ≡ true
not-false b h = ground arith

downgraded : (p max : Priority) → (not (eqb_ℤ (clamp p max) p) ≡ true) ↔ (ltb_ℤ max p ≡ true)
unfolding clamp
downgraded p max = (λ h. ground arith, λ h. ground arith)

-- A message that is accepted has an identifier, a body and a valid priority, belongs to the
-- source, has the key of the request, is not expired at the moment it is made, keeps the priority that was asked for, and has
-- an effective priority that is at most that one and at most the source's ceiling; it is reported
-- as downgraded exactly when the ceiling was exceeded.
pub new-IsAccepted :
    (id : SharedId) (org : Origin) (req : Request) (now : Time) (n : Notification)
    → new id org req now ≡ ok n
    → IsAccepted org req now n
unfolding new was_downgraded is_expired
new-IsAccepted id org req now n h =
    let (a, h1) = then_inv (refuse_if (is_zero id) _) _ h in
    let (_, h2) = then_inv (refuse_if (is_empty org.id) _) _ h1 in
    let (_, h3) = then_inv (refuse_if (now == 0) _) _ h2 in
    let (b, h4) = then_inv (refuse_if (is_empty req.body) _) _ h3 in
    let (p, h5) = then_inv (refuse_if (not (valid req.priority)) _) _ h4 in
    let (f, h6) = then_inv (refuse_if (has_passed req.expire_at now) _) _ h5 in
    let (below, lower, _, _) = clamp_bounds req.priority org.max_priority in
    let made : built id org req now ≡ n = cc in
    subst (IsAccepted org req now) made (record {
      identified = refuse_if_inv _ _ a;
      from_source = refl;
      same_key = refl;
      has_body = refuse_if_inv _ _ b;
      known_priority = not-false _ (refuse_if_inv _ _ p);
      as_requested = refl;
      not_expired = refuse_if_inv _ _ f;
      within_ceiling = below;
      not_raised = lower;
      downgrade_told = downgraded req.priority org.max_priority;
    })
