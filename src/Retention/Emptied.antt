-- ===== src/Retention/Emptied.antt =====
-- How much one run deletes.
use srosha.Prelude.{
  All, All-map, ◌||◌, ℕ, zero, suc, ◌+◌, ◌*◌, ◌≤◌, ◌≡◌, refl, ap, ◌∙◌, ◌⊎◌, inl, inr, Bool,
  Bool-cases, true, false, ◌&&◌, List, [], ◌∷◌, text_eqb, text_eqb_iff, length, ltb, arith,
  if◌then◌else◌,
}
use srosha.Errs.Result.{ok}
use srosha.Table.{filter_where, count_where, delete_where, insert_by, order_by, limited}
use srosha.Delivery.{Time}
use srosha.Notification.{Notification}
use srosha.Retention.{
  Archive, is_old, is_among, in_order, selected, delete_older, purge_from, purge,
  max_retention_batches,
}

module _ {A : Type 0} where
  count-insert :
      (p : A → Bool) (before : A → A → Bool) (a : A) (l : List A)
      → count_where p (insert_by before a l) ≡ count_where p (a ∷ l)
  unfolding count_where insert_by
  count-insert p before a [] = refl
  count-insert p before a (b ∷ l) = ground (arith, count-insert p before a l)

  count-order :
      (p : A → Bool) (before : A → A → Bool) (l : List A)
      → count_where p (order_by before l) ≡ count_where p l
  unfolding count_where order_by
  count-order p before [] = refl
  count-order p before (a ∷ l) =
      count-insert p before a (order_by before l)
      ∙ ap (λ n. (if p a then 1 else 0) + n) (count-order p before l)

  count-filter :
      (p q : A → Bool) (l : List A)
      → count_where p (filter_where q l) ≡ count_where (λ a. p a && q a) l
  unfolding count_where filter_where
  count-filter p q [] = refl
  count-filter p q (a ∷ l) = ground (arith, count-filter p q l)

  -- What is left and what is deleted.
  count-delete :
      (p q : A → Bool) (l : List A)
      → count_where p (delete_where q l) + count_where (λ a. q a && p a) l ≡ count_where p l
  unfolding count_where delete_where
  count-delete p q [] = refl
  count-delete p q (a ∷ l) = ground (arith, count-delete p q l)

  count-le :
      (p q : A → Bool) (l : List A)
      → ((a : A) → p a ≡ true → q a ≡ true)
      → count_where p l ≤ count_where q l
  unfolding count_where
  count-le p q [] h = omega arith
  count-le p q (a ∷ l) h = ground (arith, count-le p q l h, h a)

  length-limited : (n : ℕ) (l : List A) → (length (limited n l) ≡ n) ⊎ (limited n l ≡ l)
  unfolding limited
  length-limited zero l = inl refl
  length-limited (suc n) [] = inr refl
  length-limited (suc n) (a ∷ l) = elim (length-limited n l) [
    | inl e ↦ inl (ap suc e)
    | inr e ↦ inr (ap (λ r. a ∷ r) e)
  ]

  length-count : (l : List A) → length l ≡ count_where (λ (a : A). true) l
  unfolding count_where
  length-count [] = refl
  length-count (a ∷ l) = omega (arith, length-count l)

  prefix-count :
      (q : A → Bool) (n : ℕ) (l : List A)
      → All (λ a. q a ≡ true) (limited n l)
      → length (limited n l) ≤ count_where q l
  unfolding count_where limited
  prefix-count q zero l h = omega arith
  prefix-count q (suc n) [] h = omega arith
  prefix-count q (suc n) (a ∷ l) h = ground (arith, h.0, prefix-count q n l h.1)

or_true : (b : Bool) → (b || true) ≡ true
or_true true = refl
or_true false = refl

and_inv : (a b : Bool) → (a && b) ≡ true → (a ≡ true) × (b ≡ true)
and_inv true b h = (refl, h)
and_inv false b h = cc

among-itself : (s : List Notification) → All (λ m. is_among s m ≡ true) s
among-itself [] = tt
among-itself (m ∷ s) = (
  rw ((text_eqb_iff m.id m.id).1 refl) refl,
  All-map (λ x. is_among s x ≡ true) (λ x. is_among (m ∷ s) x ≡ true) s
      (λ x h. rw h (or_true (text_eqb x.id m.id))) (among-itself s),
)

-- One batch: it leaves nothing that is old, or it was a full one of old messages.
batch-deletes :
    (now : Time) (age batch : ℕ) (t : Archive)
    → let left = count_where (is_old now age) (delete_older now age batch t).1.messages in
      (left ≡ 0)
      ⊎ ((batch + left ≤ count_where (is_old now age) t.messages)
          × (batch ≤ count_where (is_among (selected now age batch t.messages)) t.messages))
unfolding delete_older selected
batch-deletes now age batch t =
    let old = filter_where (is_old now age) t.messages in
    let sorted = order_by in_order old in
    let gone = limited batch sorted in
    let some_went = prefix-count (is_among gone) batch sorted (among-itself gone) in
    let same = count-order (is_among gone) in_order old in
    let of_old = count-filter (is_among gone) (is_old now age) t.messages in
    let left = count-delete (is_old now age) (is_among gone) t.messages in
    let within =
      count-le (λ (a : Notification). is_among gone a && is_old now age a) (is_among gone)
        t.messages (λ a h. (and_inv _ _ h).0) in
    let all_old = length-count sorted in
    let all_old' = count-order (λ (a : Notification). true) in_order old in
    let all_old'' = count-filter (λ (a : Notification). true) (is_old now age) t.messages in
    elim (length-limited batch sorted) [
      | inl full ↦ inr (
        omega (arith, some_went, same, of_old, left, full),
        omega (arith, some_went, same, of_old, within, full),
      )
      | inr every ↦
          let e = ap length every in
          inl (omega (arith, some_went, same, of_old, left, all_old, all_old', all_old'', e))
    ]

purge_from-empties :
    (k : ℕ) (now : Time) (age batch : ℕ) (t : Archive)
    → count_where (is_old now age) t.messages ≤ k * batch
    → ((purge_from k (λ i. false) (λ i. now) age batch (t, [])).0 ≡ ok tt)
      × (count_where
            (is_old now age)
            (purge_from k (λ i. false) (λ i. now) age batch (t, [])).1.0.messages
          ≡ 0)
unfolding purge_from delete_older
purge_from-empties zero now age batch t h = (refl, omega (arith, h))
purge_from-empties (suc k) now age batch t h =
    elim (Bool-cases
      (ltb (count_where (is_among (selected now age batch t.messages)) t.messages) batch)) [
        | inl short ↦ rw short (
          refl,
          elim (batch-deletes now age batch t) [
            | inl none_left ↦ none_left
            | inr (_, many) ↦ ground (arith, many, short)
          ],
        )
        | inr full ↦ rw full (
            purge_from-empties k now age batch (delete_older now age batch t).1
              (elim (batch-deletes now age batch t) [
                | inl none_left ↦ omega (arith, none_left)
                | inr (fewer, _) ↦ omega (arith, fewer, h)
              ]))
      ]

-- A run that is not stopped, on a clock that stands still and statements that succeed, returns nil and
-- leaves no message older than the age, if there were at most a hundred batches of them.
pub purge-empties :
    (now : Time) (age batch : ℕ) (t : Archive)
    → count_where (is_old now age) t.messages ≤ max_retention_batches * batch
    → ((purge (λ i. false) (λ i. now) age batch (t, [])).0 ≡ ok tt)
      × (count_where (is_old now age) (purge (λ i. false) (λ i. now) age batch (t, [])).1.0.messages
          ≡ 0)
unfolding purge
purge-empties now age batch t h = purge_from-empties max_retention_batches now age batch t h
