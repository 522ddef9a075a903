-- ===== src/Dispatch/Once.antt =====
-- The end of a message is announced at most once, whatever workers run and however their calls
-- interleave: a claim is an update of the rows that nobody claimed, so only one of them gets it.
use srosha.Prelude.{
  ℕ, zero, suc, ◌+◌, ◌≡◌, refl, ◌⊎◌, inl, true, Option, none, List, [], ◌∷◌, map, arith, leb,
}
use srosha.Errs.{Error}
use srosha.Shared.Id.{SharedId}
use srosha.Dispatch.{Config, handle, recover}
use srosha.Dispatch.Program.{Prog, ret, call}
use srosha.Dispatch.World.{World, Answer, exec, Turn, Pool, take_turn, take_turns, step_at}
use srosha.Dispatch.Discipline.{held_after, Keeps, handle-Keeps, recover-Keeps}
use srosha.Dispatch.Budget.{told, one, Budget, same-Budget, exec-Budget}

-- What a worker runs: `Handle` on an event, or `Recover`.
pub data Job : Type 0 where
  handling : Config → SharedId → ℕ → Job
  recovering : Config → Job

abbrev pub job_of : Job → Prog Error
job_of (handling cfg id attempt) = handle cfg id attempt
job_of (recovering cfg) = recover cfg

abbrev held : SharedId → List (Option SharedId) → ℕ
held nid [] = 0
held nid (h ∷ hs) = one nid h + held nid hs

abbrev AllKeep : List (Option SharedId) → Pool → Type 0
AllKeep [] [] = Unit {0}
AllKeep [] (_ ∷ _) = ⊥
AllKeep (_ ∷ _) [] = ⊥
AllKeep (h ∷ hs) (p ∷ ps) = Keeps h p × AllKeep hs ps

module _ (nid : SharedId) where
  step-Budget :
      (p : Prog Error) (h : Option SharedId) (a : Answer) (w : World) (n : ℕ)
      → Keeps h p
      → Budget nid (one nid h + n) w
      → let (p', w') = step_at p a w in
        (h' : Option SharedId) × Keeps h' p' × Budget nid (one nid h' + n) w'
  unfolding step_at
  step-Budget (ret e) h a w n k b = (h, k, b)
  step-Budget (call o f) h a w n (may, k) b =
      (held_after h o (exec o a w).0, k (exec o a w).0, exec-Budget nid o h a w n may b)

  take_turn-Budget :
      (i : ℕ) (a : Answer) (pool : Pool) (hs : List (Option SharedId)) (w : World) (n : ℕ)
      → AllKeep hs pool
      → Budget nid (held nid hs + n) w
      → let (pool', w') = take_turn i a pool w in
        (hs' : List (Option SharedId)) × AllKeep hs' pool' × Budget nid (held nid hs' + n) w'
  unfolding take_turn
  take_turn-Budget i a [] hs w n k b = (hs, k, b)
  take_turn-Budget i a (p ∷ ps) [] w n k b = absurd k
  take_turn-Budget zero a (p ∷ ps) (h ∷ hs) w n (k, ks) b =
      let (h', k', b') =
        step-Budget p h a w (held nid hs + n) k (same-Budget nid _ _ w (omega arith) b) in
      (
        h' ∷ hs,
        (k', ks),
        same-Budget nid (one nid h' + (held nid hs + n)) _ (step_at p a w).1 (omega arith) b',
      )
  take_turn-Budget (suc i) a (p ∷ ps) (h ∷ hs) w n (k, ks) b =
      let (hs', ks', b') =
        take_turn-Budget i a ps hs w (one nid h + n) ks (same-Budget nid _ _ w (omega arith) b) in
      (
        h ∷ hs',
        (k, ks'),
        same-Budget nid (held nid hs' + (one nid h + n)) _ (take_turn i a ps w).1 (omega arith) b',
      )

  take_turns-Budget :
      (turns : List Turn) (pool : Pool) (hs : List (Option SharedId)) (w : World)
      → AllKeep hs pool
      → Budget nid (held nid hs + 0) w
      → let (pool', w') = take_turns turns pool w in
        (hs' : List (Option SharedId)) × AllKeep hs' pool' × Budget nid (held nid hs' + 0) w'
  unfolding take_turns
  take_turns-Budget [] pool hs w k b = (hs, k, b)
  take_turns-Budget (t ∷ turns) pool hs w k b =
      let (hs', k', b') = take_turn-Budget t.worker t.answer pool hs w 0 k b in
      take_turns-Budget turns _ hs' _ k' b'

  abbrev empty_handed : List Job → List (Option SharedId)
  empty_handed [] = []
  empty_handed (j ∷ js) = none ∷ empty_handed js

  empty_handed-held : (jobs : List Job) → held nid (empty_handed jobs) ≡ 0
  empty_handed-held [] = refl
  empty_handed-held (j ∷ js) = rw (empty_handed-held js) refl

  empty_handed-AllKeep : (jobs : List Job) → AllKeep (empty_handed jobs) (map job_of jobs)
  empty_handed-AllKeep [] = tt
  empty_handed-AllKeep (handling cfg id attempt ∷ js) =
      (handle-Keeps cfg id attempt, empty_handed-AllKeep js)
  empty_handed-AllKeep (recovering cfg ∷ js) = (recover-Keeps cfg, empty_handed-AllKeep js)

at_most_one : (m t c : ℕ) → (m + t ≡ 0) ⊎ ((m + t ≡ 1) × (c ≡ 0)) → leb t 1 ≡ true
at_most_one m t c b = ground arith

-- Workers start on any jobs, `Handle` and `Recover`, and make their calls in any order, with any
-- answers of the environment. If no callback was called about a message before, then at most one
-- is called about it.
pub take_turns-told :
    (turns : List Turn) (jobs : List Job) (w : World) (nid : SharedId)
    → told nid w.notices ≡ 0
    → leb (told nid (take_turns turns (map job_of jobs) w).1.notices) 1 ≡ true
take_turns-told turns jobs w nid h =
    let hs = empty_handed nid jobs in
    let (hs', k, b) =
      take_turns-Budget nid turns (map job_of jobs) hs w (empty_handed-AllKeep nid jobs)
        (inl (rw (h, empty_handed-held nid jobs) refl)) in
    at_most_one (held nid hs' + 0) _ _ b
