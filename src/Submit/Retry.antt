-- ===== src/Submit/Retry.antt =====
-- A client that timed out and tries again.
use srosha.Prelude.{
  ◌≡◌, refl, ap, subst, sym, ◌∙◌, ◌⊎◌, inl, inr, true, false, not, some, List, ◌∷◌, Text,
  text_eqb_iff, is_empty,
}
use srosha.Errs.Result.{Result, ok, err, ok_injective, bind_inv, then_inv, refuse_if}
use srosha.Errs.{detailed, too_many, rate_limited}
use srosha.Notification.{Notification}
use srosha.Source.{Source, ensure_active}
use srosha.Submit.{
  Command, Answer, Tables, Meeting, admit, origin, request, with_key, duplicate_of, accepted,
  looked_up, after_look, after_admit, submit,
}
use srosha.Submit.Stored.{IsHandled, submit-IsHandled}

-- The answer to a key that is taken.
submit-taken :
    (m : Meeting) (cmd : Command) (t : Tables) (s : Source) (n : Notification)
    → is_empty cmd.idempotency_key ≡ false
    → admit m ≡ ok s
    → m.first_read ≡ ok tt
    → with_key cmd.source_id cmd.idempotency_key t.messages ≡ some n
    → submit m cmd t ≡ (ok (duplicate_of n), t)
unfolding submit after_admit after_look looked_up
submit-taken m cmd t s n k a f w = rw (a, k, f, w) refl

with_key-new :
    (source_id key : Text) (n : Notification) (ns : List Notification)
    → is_empty key ≡ false
    → n.source_id ≡ source_id
    → n.idempotency_key ≡ key
    → with_key source_id key (n ∷ ns) ≡ some n
unfolding with_key
with_key-new source_id key n ns k s e =
    rw (k, (text_eqb_iff n.source_id source_id).1 s, (text_eqb_iff n.idempotency_key key).1 e) refl

-- The source that is admitted is the one that was read.
admit-source : (m : Meeting) (s : Source) → admit m ≡ ok s → m.source ≡ ok s
unfolding admit
admit-source m s h =
    let (allowed, _, h1) = bind_inv m.allowed _ h in
    let (_, h2) = then_inv (refuse_if (not allowed) (detailed too_many rate_limited)) _ h1 in
    let (read, e, h3) = bind_inv m.source _ h2 in
    let (_, h4) = then_inv (ensure_active read) _ h3 in e ∙ h4

-- After an answer, the key leads to the message that was answered with.
answered-with_key :
    (m : Meeting) (cmd : Command) (t : Tables) (s : Source) (r : Result Answer) (t' : Tables)
    (a : Answer)
    → is_empty cmd.idempotency_key ≡ false
    → m.source ≡ ok s
    → s.id ≡ cmd.source_id
    → r ≡ ok a
    → IsHandled m cmd t (r, t')
    → (n : Notification) × (with_key cmd.source_id cmd.idempotency_key t'.messages ≡ some n)
      × ((a ≡ accepted n) ⊎ (a ≡ duplicate_of n))
unfolding origin request
answered-with_key m cmd t s r t' a k f same h (inl (p, answer, _)) =
    let src : p.source ≡ s =
      ok_injective p.source s (sym (admit-source m p.source p.admitted) ∙ f) in
    let own : p.message.source_id ≡ cmd.source_id =
      p.acceptance.from_source ∙ ap (λ (x : Source). x.id) src ∙ same in
    (
      p.message,
      subst (λ ns. with_key cmd.source_id cmd.idempotency_key ns ≡ some p.message) (sym p.stored)
          (with_key-new cmd.source_id cmd.idempotency_key p.message _ k own p.acceptance.same_key),
      inl (ok_injective a (accepted p.message) (sym h ∙ answer)),
    )
answered-with_key m cmd t s r t' a k f same h (inr (inr (inl (n, e, w, _)))) =
    (n, w, inr (ok_injective a (duplicate_of n) (sym h ∙ e)))
answered-with_key m cmd t s r t' a k f same h (inr (inr (inr (e, bad, _)))) =
    let no : ok a ≡ err e = sym h ∙ bad in cc
answered-with_key m cmd t s r t' a k f same h (inr (inl (_, e, bad, _, _))) =
    let no : ok a ≡ err e = sym h ∙ bad in cc

-- If a request with a key was answered, and the source that was read is the caller's, then the
-- same request again, to a source that is admitted and with a first read that succeeds, is
-- answered with the same message, priority and downgrade, as a duplicate, and changes nothing.
pub resubmit :
    (m m' : Meeting) (cmd : Command) (t : Tables) (s s' : Source) (a : Answer)
    → is_empty cmd.idempotency_key ≡ false
    → m.source ≡ ok s
    → s.id ≡ cmd.source_id
    → (submit m cmd t).0 ≡ ok a
    → admit m' ≡ ok s'
    → m'.first_read ≡ ok tt
    → submit m' cmd (submit m cmd t).1 ≡ (ok (record a { duplicate = true }), (submit m cmd t).1)
unfolding accepted duplicate_of
resubmit m m' cmd t s s' a k f same h adm read =
    let (n, w, e) =
      answered-with_key m cmd t s _ (submit m cmd t).1 a k f same h (submit-IsHandled m cmd t) in
    submit-taken m' cmd (submit m cmd t).1 s' n k adm read w
    ∙ ap (λ x. (ok x, (submit m cmd t).1))
        (elim e [
          | inl q ↦ ap (λ (x : Answer). record x { duplicate = true }) (sym q)
          | inr q ↦ ap (λ (x : Answer). record x { duplicate = true }) (sym q)
        ])
