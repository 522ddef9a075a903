-- ===== src/Broker/Replies.antt =====
-- What the broker is told of each message.
use srosha.Prelude.{
  ℕ, zero, suc, ◌-◌, ◌*◌, ◌≤◌, ◌<◌, ◌≡◌, refl, ap, sym, subst, inl, inr, ◌⊎◌, Bool-cases, true,
  false, not, Option, none, some, List, [], ◌∷◌, All, Text, length, arith, ◌==◌, ltb_ℤ, ℤ, pos,
  negsuc, is_empty, ◌||◌, if◌then◌else◌,
}
use srosha.Errs.{Error, app, nil, internal, is_nil}
use srosha.Errs.Result.{ok, then_inv, refuse_if, refuse_if_inv, ok_injective}
use srosha.Table.{limited}
use srosha.Shared.Id.{SharedId}
use srosha.Submit.{DispatchEvent}
use srosha.Broker.{
  second, backoff, delays_for, ConsumerConfig, Consumer, magnitude_of, new_consumer, element,
  between, delay, Msg, Reply, ack, term, nak, read_event, reply_to, handle,
}

-- A delay within the table of delays.
abbrev pub IsDelay : ℕ → Type 0
IsDelay d = (5 * second ≤ d) × (d ≤ 600 * second)

between_bounds : (n attempt : ℕ) → 0 < n → (0 < between n attempt) × (between n attempt ≤ n)
unfolding between
between_bounds n attempt h = ground arith

element-All :
    (i : ℕ) (xs : List ℕ)
    → i < length xs
    → All IsDelay xs
    → (d : ℕ) × (element i xs ≡ some d) × IsDelay d
unfolding element
element-All i [] h a = absurd (not_below h)
  where
    not_below : i < 0 → ⊥
    not_below h = omega arith
element-All zero (x ∷ xs) h a = (x, refl, a.0)
element-All (suc i) (x ∷ xs) h a = element-All i xs (lower h) a.1
  where
    lower : suc i < length (x ∷ xs) → i < length xs
    lower h = omega arith

delay-Some :
    (delays : List ℕ) (attempt : ℕ)
    → 0 < length delays
    → All IsDelay delays
    → (d : ℕ) × (delay delays attempt ≡ some d) × IsDelay d
unfolding delay
delay-Some delays attempt h a =
    let b = between_bounds (length delays) attempt h in
    let e = element-All (between (length delays) attempt - 1) delays (lower b.0 b.1) a in
    (e.0, at_slot b.0 e.1, e.2)
  where
    lower : {n k : ℕ} → 0 < k → k ≤ n → k - 1 < n
    lower h k = omega arith

    at_slot :
        {k d : ℕ}
        → 0 < k
        → element (k - 1) delays ≡ some d
        → (if k == 0 then none else element (k - 1) delays) ≡ some d
    at_slot h e = ground arith

pub delays_for-Delays : (n : ℕ) → 0 < n → (0 < length (delays_for n)) × All IsDelay (delays_for n)
unfolding delays_for limited
delays_for-Delays zero h = (h, tt)
delays_for-Delays (suc zero) h = (omega arith, ((omega arith, omega arith), tt))
delays_for-Delays (suc (suc zero)) h =
    (omega arith, ((omega arith, omega arith), ((omega arith, omega arith), tt)))
delays_for-Delays (suc (suc (suc zero))) h = (
  omega arith,
  ((omega arith, omega arith), ((omega arith, omega arith), ((omega arith, omega arith), tt))),
)
delays_for-Delays (suc (suc (suc (suc n)))) h =
    subst (λ (xs : List ℕ). (0 < length xs) × All IsDelay xs) (sym all)
      (
        omega arith,
        (
          (omega arith, omega arith),
          (
            (omega arith, omega arith),
            ((omega arith, omega arith), ((omega arith, omega arith), tt)),
          ),
        ),
      )
  where
    all : delays_for (suc (suc (suc (suc n)))) ≡ backoff
    all = ground arith

above_zero : (z : ℤ) → not (ltb_ℤ (pos 0) z) ≡ false → 0 < magnitude_of z
above_zero (pos n) h = ground arith
above_zero (negsuc n) h = ground arith

new_consumer-delays :
    (refusal : Option Error) (cfg : ConsumerConfig) (c : Consumer)
    → new_consumer refusal cfg ≡ ok c
    → (0 < magnitude_of cfg.max_attempts) × (c.delays ≡ delays_for (magnitude_of cfg.max_attempts))
unfolding new_consumer
new_consumer-delays refusal cfg c h =
    let (named, a) =
      then_inv (refuse_if (is_empty cfg.stream || is_empty cfg.root) (app internal nil)) _ h in
    let (some_attempts, b) =
      then_inv (refuse_if (not (ltb_ℤ (pos 0) cfg.max_attempts)) (app internal nil)) _ a in
    let (waits, d) =
      then_inv (refuse_if (not (ltb_ℤ (pos 0) cfg.ack_wait)) (app internal nil)) _ b in
    let (flies, e) =
      then_inv (refuse_if (not (ltb_ℤ (pos 0) cfg.max_in_flight)) (app internal nil)) _ d in
    let (made, last) = then_inv _ _ e in
    (
      above_zero cfg.max_attempts (refuse_if_inv _ _ some_attempts),
      sym (ap (λ (k : Consumer). k.delays) (ok_injective _ c last)),
    )

module _ (unmarshal : Text → Option DispatchEvent) (dispatch : SharedId → ℕ → Error) where
  -- What each reply says of the message that it answers.
  pub Fits : Msg → Reply → Type 0
  Fits msg ack =
      (attempt : ℕ) × (e : DispatchEvent) × (msg.num_delivered ≡ some attempt)
      × (read_event (unmarshal msg.payload) ≡ some e)
      × (is_nil (dispatch e.delivery_id attempt) ≡ true)
  Fits msg (nak d) =
      (attempt : ℕ) × (e : DispatchEvent) × (msg.num_delivered ≡ some attempt)
      × (read_event (unmarshal msg.payload) ≡ some e)
      × (is_nil (dispatch e.delivery_id attempt) ≡ false)
      × IsDelay d
  Fits msg term = (msg.num_delivered ≡ none) ⊎ (read_event (unmarshal msg.payload) ≡ none)

  settled-Fits :
      (delays : List ℕ) (msg : Msg) (attempt : ℕ) (e : DispatchEvent)
      → msg.num_delivered ≡ some attempt
      → read_event (unmarshal msg.payload) ≡ some e
      → (d : ℕ) × (delay delays attempt ≡ some d) × IsDelay d
      → (is_nil (dispatch e.delivery_id attempt) ≡ true)
        ⊎ (is_nil (dispatch e.delivery_id attempt) ≡ false)
      → (r : Reply) × (reply_to unmarshal dispatch delays attempt (some e) ≡ some r) × Fits msg r
  unfolding Fits reply_to
  settled-Fits delays msg attempt e n r (d, due, h) (inl y) =
      (ack, ground arith, (attempt, e, n, r, y))
  settled-Fits delays msg attempt e n r (d, due, h) (inr y) =
      (nak d, asked y due, (attempt, e, n, r, y, h))
    where
      asked :
          is_nil (dispatch e.delivery_id attempt) ≡ false
          → delay delays attempt ≡ some d
          → reply_to unmarshal dispatch delays attempt (some e) ≡ some (nak d)
      asked y due = ground arith

  read-Fits :
      (delays : List ℕ) (msg : Msg) (attempt : ℕ) (read : Option DispatchEvent)
      → msg.num_delivered ≡ some attempt
      → read_event (unmarshal msg.payload) ≡ read
      → (d : ℕ) × (delay delays attempt ≡ some d) × IsDelay d
      → (r : Reply) × (reply_to unmarshal dispatch delays attempt read ≡ some r) × Fits msg r
  unfolding Fits reply_to
  read-Fits delays msg attempt none n h due = (term, refl, inr h)
  read-Fits delays msg attempt (some e) n h due =
      settled-Fits delays msg attempt e n h due
        (Bool-cases (is_nil (dispatch e.delivery_id attempt)))

  -- A consumer that NewConsumer made answers every message, without a panic: it is acknowledged only
  -- if its event was read and the dispatcher returned nil, asked for again after 5 to 600 seconds
  -- only if the dispatcher returned an error, and given up only if it has no metadata or no event.
  pub handle-Fits :
      (refusal : Option Error) (cfg : ConsumerConfig) (c : Consumer) (msg : Msg)
      → new_consumer refusal cfg ≡ ok c
      → (r : Reply) × (handle unmarshal dispatch c msg ≡ some r) × Fits msg r
  unfolding handle Fits
  handle-Fits refusal cfg c msg h =
      let (attempts, e) = new_consumer-delays refusal cfg c h in
      let (some_delay, bounds) = delays_for-Delays (magnitude_of cfg.max_attempts) attempts in
      counted msg.num_delivered refl (λ attempt.
        delay-Some c.delays attempt (subst (λ (xs : List ℕ). 0 < length xs) (sym e) some_delay)
          (subst (λ (xs : List ℕ). All IsDelay xs) (sym e) bounds))
    where
      counted :
          (n : Option ℕ)
          → msg.num_delivered ≡ n
          → ((attempt : ℕ) → (d : ℕ) × (delay c.delays attempt ≡ some d) × IsDelay d)
          → (r : Reply) × (handle unmarshal dispatch c msg ≡ some r) × Fits msg r
      counted none n due = (
        term,
        ap
            (λ (o : Option ℕ). elim o [
              | none ↦ some term
              | some attempt ↦
                  reply_to unmarshal dispatch c.delays attempt (read_event (unmarshal msg.payload))
            ])
            n,
        inl n,
      )
      counted (some attempt) n due =
          subst
            (λ (o : Option ℕ).
              (r : Reply) × (elim o [
                | none ↦ some term
                | some attempt ↦
                    reply_to unmarshal dispatch c.delays attempt
                      (read_event (unmarshal msg.payload))
              ]
                ≡ some r)
              × Fits msg r)
            (sym n)
            (read-Fits c.delays msg attempt (read_event (unmarshal msg.payload)) n refl
              (due attempt))
