-- ===== src/Dispatch/Rely.antt =====
-- Proving a program under interference: between any two of its calls the rest of the system may
-- change the table as `KeptAll` allows, which is all that other workers can do to it.
use srosha.Prelude.{ℕ, ◌+◌, ◌≢◌, Option, none, some, List, [], ◌∷◌, arith, if◌then◌else◌}
use srosha.Shared.Id.{SharedId}
use srosha.Delivery.{Status, pending, Delivery}
use srosha.Store.{Row, has_id, update_where, is_pending_with, with_outcome, update}
use srosha.Store.Rows.{KeptAll, KeptAll-trans, status_eqb-pending, pending-status_eqb}
use srosha.Dispatch.Program.{Prog, ret, call, ◌>>=◌}
use srosha.Dispatch.World.{World, Answer, IsSane, exec, run}
use srosha.Dispatch.Settled.{exec-KeptAll}

-- `Q` holds of the result and of the world at the end.
abbrev pub Wp : {A : Type 0} → (A → World → Type 0) → Prog A → World → Type 0
Wp Q (ret x) w = Q x w
Wp Q (call o k) w =
    (a : Answer) (v : World)
    → IsSane a
    → KeptAll w.rows v.rows
    → Wp Q (k (exec o a v).0) (exec o a v).1

pub Wp-bind :
    {A B : Type 0} (Q : B → World → Type 0) (p : Prog A) (f : A → Prog B) (w : World)
    → Wp (λ x v. Wp Q (f x) v) p w
    → Wp Q (p >>= f) w
Wp-bind Q (ret x) f w h = h
Wp-bind Q (call o k) f w h =
    λ a v sane kept. Wp-bind Q (k (exec o a v).0) f (exec o a v).1 (h a v sane kept)

pub Wp-map :
    {A : Type 0} (Q R : A → World → Type 0) (p : Prog A) (w : World)
    → ((x : A) (v : World) → Q x v → R x v)
    → Wp Q p w
    → Wp R p w
Wp-map Q R (ret x) w f h = f x w h
Wp-map Q R (call o k) w f h =
    λ a v sane kept. Wp-map Q R (k (exec o a v).0) (exec o a v).1 f (h a v sane kept)

-- What every allowed change keeps holds after any program.
pub Wp-stable :
    {A : Type 0} (S : World → Type 0) (p : Prog A) (w : World)
    → ((u v : World) → KeptAll u.rows v.rows → S u → S v)
    → S w
    → Wp (λ _ v. S v) p w
Wp-stable S (ret x) w f h = h
Wp-stable S (call o k) w f h = λ a v sane kept.
    Wp-stable S (k (exec o a v).0) (exec o a v).1 f
      (f v (exec o a v).1 (exec-KeptAll o a v) (f w v kept h))

pub Wp-run :
    {A : Type 0} (Q : A → World → Type 0) (p : Prog A) (answers : ℕ → Answer)
    (others : ℕ → World → World) (i : ℕ) (w : World)
    → ((j : ℕ) → IsSane (answers j))
    → ((j : ℕ) (v : World) → KeptAll v.rows (others j v).rows)
    → Wp Q p w
    → let done = run p answers others i w in Q done.0 done.1
unfolding run
Wp-run Q (ret x) answers others i w sane kept h = h
Wp-run Q (call o k) answers others i w sane kept h =
    let v = others i w in
    let done = exec o (answers i) v in
    Wp-run Q (k done.0) answers others (i + 1) done.1 sane kept
      (h (answers i) v (sane i) (kept i w))

-- Another's change before a program begins is one more that it tolerates.
pub Wp-weaken :
    {A : Type 0} (Q : A → World → Type 0) (p : Prog A) (u v : World)
    → ((x : A) (s t : World) → KeptAll s.rows t.rows → Q x s → Q x t)
    → KeptAll u.rows v.rows
    → Wp Q p u
    → Wp Q p v
Wp-weaken Q (ret x) u v f kept h = f x u v kept h
Wp-weaken Q (call o k) u v f kept h =
    λ a t sane kept'. h a t sane (KeptAll-trans u.rows v.rows t.rows kept kept')

-- The status of the row with an identifier, which is the table's primary key.
abbrev pub status_of : SharedId → List Row → Option Status
status_of id [] = none
status_of id (r ∷ rs) = if has_id id r then some r.status else status_of id rs

-- No row with the identifier is waiting any more: it is settled, or there is none.
abbrev pub IsResolved : SharedId → World → Type 0
IsResolved id w = status_of id w.rows ≢ some pending

kept-status_of :
    (id : SharedId) (rs qs : List Row)
    → KeptAll rs qs
    → status_of id rs ≢ some pending
    → status_of id qs ≢ some pending
kept-status_of id [] [] k h = h
kept-status_of id [] (_ ∷ _) k h = absurd k
kept-status_of id (_ ∷ _) [] k h = absurd k
kept-status_of id (r ∷ rs) (q ∷ qs) k h = ground (arith, kept-status_of id rs qs k.1)

pub IsResolved-kept :
    (id : SharedId) (u v : World) → KeptAll u.rows v.rows → IsResolved id u → IsResolved id v
IsResolved-kept id u v k h = kept-status_of id u.rows v.rows k h

update_where-status_of :
    (d : Delivery) (rs : List Row)
    → d.status ≢ pending
    → status_of d.id (update_where (is_pending_with d.id) (with_outcome d) rs) ≢ some pending
unfolding update_where
update_where-status_of d [] h = λ e. cc
update_where-status_of d (r ∷ rs) h =
    ground (
      arith,
      status_eqb-pending r.status,
      pending-status_eqb r.status,
      update_where-status_of d rs h,
    )

-- After `UpdateDelivery`, whether or not it matched a row, none with that identifier is pending.
pub update-status_of :
    (d : Delivery) (rs : List Row)
    → d.status ≢ pending
    → status_of d.id (update d rs).1 ≢ some pending
unfolding update
update-status_of d rs h = update_where-status_of d rs h
