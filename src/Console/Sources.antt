-- ===== src/Console/Sources.antt =====
-- internal/core/usecase/source.go, with internal/adapter/db/postgres/source.go: a customer's sources.
use srosha.Prelude.{
  ℕ, Bool, false, none, some, List, [], ◌∷◌, Text, text, text_eqb, any, is_some, not, length, leb,
  if◌then◌else◌,
}
use srosha.Errs.{
  app, str, too_many, refused, detailed, not_found, duplicate_entry, source_not_found,
}
use srosha.Errs.Result.{Result, ok, err, changed_to}
use srosha.Effect.{Effect, ◌>>=◌, ◌>>◌, pure, fail, lift, statement, query}
use srosha.Table.{
  find_where, filter_where, count_where, change_where, order_by, limited, or_missing, wrote,
}
use srosha.Shared.Id.{SharedId}
use srosha.Delivery.{Time}
use srosha.Source
use srosha.Source.{Source, Addresses, reconfigure}
use srosha.User.{User}
use srosha.Console.{Console}
use srosha.Console.Gate.{Gate, do_act}

abbrev pub max_sources_per_user : ℕ
max_sources_per_user = 20

abbrev pub act_source_create : Text
act_source_create = text "source.create"

abbrev pub act_source_update : Text
act_source_update = text "source.update"

abbrev pub source_kind : Text
source_kind = text "source"

abbrev pub is_source : Text → Source → Bool
is_source id s = text_eqb s.id id

unfoldable pub read_source : Text → Console → Result Source
read_source id t =
    or_missing (find_where (is_source id) t.sources) (refused not_found source_not_found)

-- `ORDER BY created_at DESC`.
abbrev pub newer : Source → Source → Bool
newer a b = leb b.created_at a.created_at

abbrev pub is_owned_by : SharedId → Source → Bool
is_owned_by owner s = text_eqb s.owner_user_id owner

unfoldable pub list_by_owner : SharedId → Console → List Source
list_by_owner owner t = order_by newer (filter_where (is_owned_by owner) t.sources)

-- The columns that are given, and the defaults of the rest.
abbrev pub as_created : Source → Source
as_created s = record s {
  description = [];
  is_active = false;
  approved_at = none;
  reviewed_at = none;
  review_note = [];
  updated_at = s.created_at;
}

unfoldable pub create_source : Source → Console → Result (Unit {0}) × Console
create_source s t =
    if any (is_source s.id) t.sources
    then (err (app duplicate_entry str), t)
    else (ok tt, record t { sources = as_created s ∷ t.sources })

abbrev pub with_settings : Source → Source → Source
with_settings s row = record row {
  name = s.name;
  description = s.description;
  default_addresses = s.default_addresses;
  updated_at = s.updated_at;
}

unfoldable pub update_settings : Source → Console → Result (Unit {0}) × Console
update_settings s t = (
  wrote (count_where (is_source s.id) t.sources) (refused not_found source_not_found),
  record t { sources = change_where (is_source s.id) (with_settings s) t.sources },
)

abbrev pub with_review : Source → Source → Source
with_review s row = record row {
  is_active = s.is_active;
  approved_at = s.approved_at;
  reviewed_at = s.reviewed_at;
  review_note = s.review_note;
  updated_at = s.updated_at;
}

unfoldable pub update_review : Source → Console → Result (Unit {0}) × Console
update_review s t = (
  wrote (count_where (is_source s.id) t.sources) (refused not_found source_not_found),
  record t { sources = change_where (is_source s.id) (with_review s) t.sources },
)

unfoldable pub list_for_review : ℕ → Console → List Source
list_for_review n t = limited n (
    order_by (λ (a b : Source). leb a.created_at b.created_at)
      (filter_where (λ (s : Source). not (is_some s.reviewed_at)) t.sources))

unfoldable pub list_all : ℕ → Console → List Source
list_all n t = limited n (order_by newer t.sources)

-- `Register`. The text of the new identifier is drawn before the gate's.
unfoldable pub register :
    (Text → Bool) → Gate → Text → Time → User → Text → Addresses → Effect Console Source
unfolding list_by_owner Source.new do_act create_source
register is_mail g id now actor name addresses = do
  mine ← query (λ t. ok (list_by_owner actor.id t))
  (if leb max_sources_per_user (length mine) then fail (app too_many str) else (do
    built ← lift (Source.new is_mail id actor.id name addresses now)
    do_act g (some actor)
        (record {
          verb = act_source_create;
          target_type = source_kind;
          target_id = built.id;
          note = [];
        })
        (statement (create_source built))
    pure built))

-- `Mine`.
unfoldable pub mine : User → Effect Console (List Source)
unfolding list_by_owner
mine actor = query (λ t. ok (list_by_owner actor.id t))

-- `One`: a source of somebody else's is no source.
unfoldable pub one : User → Text → Effect Console Source
unfolding read_source
one actor id = do
  s ← query (read_source id)
  (if text_eqb s.owner_user_id actor.id then pure s else fail (detailed not_found source_not_found))

-- `Update`.
unfoldable pub update :
    (Text → Bool) → Gate → Time → User → Text → Text → Text → Addresses → Effect Console Source
unfolding one reconfigure do_act update_settings
update is_mail g now actor id name description addresses = do
  s ← one actor id
  changed ← lift (changed_to (reconfigure is_mail name description addresses now s))
  do_act g (some actor)
      (record {
        verb = act_source_update;
        target_type = source_kind;
        target_id = changed.id;
        note = [];
      })
      (statement (update_settings changed))
  pure changed
