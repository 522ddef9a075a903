-- ===== src/Dispatch/Settled.antt =====
-- No call of a worker undoes an outcome, so no interleaving of workers does.
use srosha.Prelude.{ℕ, zero, suc, List, [], ◌∷◌}
use srosha.Errs.{Error}
use srosha.Errs.Result.{Result}
use srosha.Store.Rows.{
  KeptAll, KeptAll-refl, KeptAll-trans, update-KeptAll, claim_announcement-KeptAll, release-KeptAll,
  claim_stale-KeptAll,
}
use srosha.Dispatch.Program.{
  Op, read_clock, draw_id, read_delivery, list_deliveries, claim_stale, claim_announcement, release,
  update_delivery, read_notification, find_sender, send_message, read_webhook, notify,
  webhook_success, webhook_failure, webhook_deactivate, Prog, ret, call,
}
use srosha.Dispatch.World.{
  World, Fault, fine, before, after, Answer, under, exec, Turn, Pool, take_turn, take_turns,
  step_at,
}

under-KeptAll :
    {A : Type 0} (f : Fault) (w : World) (done : Result A × World)
    → KeptAll w.rows done.1.rows
    → KeptAll w.rows (under f w done).1.rows
under-KeptAll fine w (r, w') h = h
under-KeptAll before w (r, w') h = KeptAll-refl w.rows
under-KeptAll after w (r, w') h = h

pub exec-KeptAll : (o : Op) (a : Answer) (w : World) → KeptAll w.rows (exec o a w).1.rows
unfolding exec
exec-KeptAll read_clock a w = KeptAll-refl w.rows
exec-KeptAll draw_id a w = KeptAll-refl w.rows
exec-KeptAll (read_delivery id) a w = under-KeptAll a.fault w _ (KeptAll-refl w.rows)
exec-KeptAll (list_deliveries nid) a w = under-KeptAll a.fault w _ (KeptAll-refl w.rows)
exec-KeptAll (release id) a w = under-KeptAll a.fault w _ (release-KeptAll id w.rows)
exec-KeptAll (read_notification id) a w = under-KeptAll a.fault w _ (KeptAll-refl w.rows)
exec-KeptAll (claim_stale older lease limit) a w =
    under-KeptAll a.fault w _ (claim_stale-KeptAll a.clock older lease limit w.rows)
exec-KeptAll (claim_announcement nid now) a w =
    under-KeptAll a.fault w _ (claim_announcement-KeptAll nid now w.rows)
exec-KeptAll (update_delivery d) a w = under-KeptAll a.fault w _ (update-KeptAll d w.rows)
exec-KeptAll (find_sender s) a w = KeptAll-refl w.rows
exec-KeptAll (send_message s m) a w = KeptAll-refl w.rows
exec-KeptAll (read_webhook source_id) a w = under-KeptAll a.fault w _ (KeptAll-refl w.rows)
exec-KeptAll (notify h b) a w = KeptAll-refl w.rows
exec-KeptAll (webhook_success id now) a w = under-KeptAll a.fault w _ (KeptAll-refl w.rows)
exec-KeptAll (webhook_failure id now) a w = under-KeptAll a.fault w _ (KeptAll-refl w.rows)
exec-KeptAll (webhook_deactivate id now) a w = under-KeptAll a.fault w _ (KeptAll-refl w.rows)

step-KeptAll : (p : Prog Error) (a : Answer) (w : World) → KeptAll w.rows (step_at p a w).1.rows
unfolding step_at
step-KeptAll (ret e) a w = KeptAll-refl w.rows
step-KeptAll (call o k) a w = exec-KeptAll o a w

take_turn-KeptAll :
    (i : ℕ) (a : Answer) (pool : Pool) (w : World) → KeptAll w.rows (take_turn i a pool w).1.rows
unfolding take_turn
take_turn-KeptAll i a [] w = KeptAll-refl w.rows
take_turn-KeptAll zero a (p ∷ ps) w = step-KeptAll p a w
take_turn-KeptAll (suc i) a (p ∷ ps) w = take_turn-KeptAll i a ps w

-- Whatever workers run, on whatever programs, in whatever order their calls come and however the
-- environment answers: every row of the table keeps its message, recipient and sender, keeps the
-- outcome that it had unless it was pending, and keeps the announcement that it had.
pub take_turns-KeptAll :
    (turns : List Turn) (pool : Pool) (w : World) → KeptAll w.rows (take_turns turns pool w).1.rows
unfolding take_turns
take_turns-KeptAll [] pool w = KeptAll-refl w.rows
take_turns-KeptAll (t ∷ turns) pool w =
    let (pool', w') = take_turn t.worker t.answer pool w in
    KeptAll-trans w.rows w'.rows _ (take_turn-KeptAll t.worker t.answer pool w)
      (take_turns-KeptAll turns pool' w')
