-- ===== src/Examples/Retention.antt =====
-- Old messages, on a concrete table.
use srosha.Prelude.{◌≡◌, false, none, [], ◌∷◌, text, pos, arith}
use srosha.Errs.Result.{ok}
use srosha.Table.{count_where}
use srosha.Notification.{Notification}
use srosha.Retention.{Archive, is_old, purge}
use srosha.Retention.Emptied.{purge-empties}

abbrev hello : Notification
hello = record {
  id = text "n1";
  source_id = text "shop";
  idempotency_key = [];
  source_name = text "Shop";
  title = [];
  body = text "hello";
  requested_priority = pos 1;
  effective_priority = pos 1;
  expire_at = none;
  created_at = 5;
  metadata = [];
}

abbrev archive : Archive
archive = record {
  messages =
      hello
      ∷ record hello { id = text "n2"; created_at = 7 }
      ∷ record hello { id = text "n3"; created_at = 990 }
      ∷ [];
  deliveries = [];
}

purge-empties_example :
    ((purge (λ i. false) (λ i. 1_000) 100 1 (archive, [])).0 ≡ ok tt)
    × (count_where
          (is_old 1_000 100)
          (purge (λ i. false) (λ i. 1_000) 100 1 (archive, [])).1.0.messages
        ≡ 0)
unfolding count_where
purge-empties_example = purge-empties 1_000 100 1 archive (omega arith)
