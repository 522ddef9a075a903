-- ===== src/Console/Keys.antt =====
-- internal/core/usecase/key.go and internal/core/domain/source/auth.go, with
-- internal/adapter/db/postgres/apikey.go: the keys of a source, and who calls with one. A key and its
-- hash are minted by internal/adapter/auth, and are given.
pub mod Caller
pub mod Lifecycle
use srosha.Prelude.{
  ℕ, ◌+◌, Bool, true, false, not, ◌&&◌, ◌||◌, Option, none, some, is_some, List, [], ◌∷◌, Text,
  text, text_eqb, text_leb, any, map, is_empty, leb, ltb, if◌then◌else◌,
}
use srosha.Errs.{
  Error, app, str, refused, unauthorized, not_found, duplicate_entry, unknown_key, key_not_found,
}
use srosha.Errs.Result.{Result, ok, err}
use srosha.Effect.{Effect, ◌>>=◌, ◌>>◌, pure, fail, lift, statement, query}
use srosha.Table.{find_where, filter_where, count_where, change_where, order_by, wrote}
use srosha.Shared.Id.{SharedId}
use srosha.Delivery.{Time}
use srosha.Notification.{has_passed}
use srosha.Source.{Source, ensure_active}
use srosha.User.{User}
use srosha.Key.{Key}
use srosha.Console.{Console, KeyRow}
use srosha.Console.Gate.{Gate, Act, do_act}
use srosha.Console.Sources.{is_source, one}

abbrev pub act_key_issue : Text
act_key_issue = text "key.issue"

abbrev pub act_key_revoke : Text
act_key_revoke = text "key.revoke"

abbrev pub key_kind : Text
key_kind = text "key"

-- A new row: what `CreateAPIKey` is not given is null.
abbrev pub as_issued : Key → Text → KeyRow
as_issued k hash = record {
  key = record k { last_used_at = none; revoked_at = none };
  key_hash = hash;
}

unfoldable pub create_key : Key → Text → Console → Result (Unit {0}) × Console
create_key k hash t =
    if any (λ (r : KeyRow). text_eqb r.key_hash hash || text_eqb r.key.id k.id) t.keys
    then (err (app duplicate_entry str), t)
    else (ok tt, record t { keys = as_issued k hash ∷ t.keys })

-- The WHERE of `ReadSourceByKeyHash`.
abbrev pub is_live_with : Time → Text → KeyRow → Bool
is_live_with now hash r =
    text_eqb r.key_hash hash
    && (not (is_some r.key.revoked_at) && not (has_passed r.key.expires_at now))

abbrev pub joined : SharedId → Option Source → Option (Source × SharedId)
joined id none = none
joined id (some s) = some (s, id)

abbrev pub with_source : List Source → Option KeyRow → Option (Source × SharedId)
with_source sources none = none
with_source sources (some r) = joined r.key.id (find_where (is_source r.key.source_id) sources)

unfoldable pub read_source_by_key_hash : Text → Time → Console → Option (Source × SharedId)
read_source_by_key_hash hash now t =
    with_source t.sources (find_where (is_live_with now hash) t.keys)

earlier : KeyRow → KeyRow → Bool
unfolding text_leb
earlier a b = text_leb a.key.id b.key.id

abbrev pub is_key_of : Text → KeyRow → Bool
is_key_of source_id r = text_eqb r.key.source_id source_id

-- `last_used_at < now - not_used_for`, in sums.
abbrev pub is_untouched : Time → ℕ → Option Time → Bool
is_untouched now not_used_for none = true
is_untouched now not_used_for (some t) = ltb (t + not_used_for) now

unfoldable pub touch_key : SharedId → Time → ℕ → Console → Result (Unit {0}) × Console
touch_key id now not_used_for t = (
  ok tt,
  record t {
    keys =
        change_where
          (λ (r : KeyRow). text_eqb r.key.id id && is_untouched now not_used_for r.key.last_used_at)
          (λ (r : KeyRow). record r { key = record r.key { last_used_at = some now } }) t.keys;
  },
)

abbrev pub is_unrevoked : SharedId → KeyRow → Bool
is_unrevoked id r = text_eqb r.key.id id && not (is_some r.key.revoked_at)

abbrev pub as_revoked : Time → KeyRow → KeyRow
as_revoked now r = record r { key = record r.key { revoked_at = some now } }

unfoldable pub revoke_key : SharedId → Time → Console → Result (Unit {0}) × Console
revoke_key id now t = (
  wrote (count_where (is_unrevoked id) t.keys) (app not_found str),
  record t { keys = change_where (is_unrevoked id) (as_revoked now) t.keys },
)

-- `unknownKey`.
abbrev pub no_such_key : Error
no_such_key = refused unauthorized unknown_key

unfoldable pub after_key : Option (Source × SharedId) → Effect Console (Source × SharedId)
after_key none = fail no_such_key
after_key (some (s, id)) = do lift (ensure_active s); pure (s, id)

-- `Authenticate`.
unfoldable pub authenticate : Time → Text → Effect Console (Source × SharedId)
unfolding read_source_by_key_hash after_key
authenticate now hash =
    if is_empty hash
    then fail no_such_key
    else (do found ← query (λ t. ok (read_source_by_key_hash hash now t)); after_key found)

-- `RecordUse`.
unfoldable pub record_use : Time → ℕ → SharedId → Effect Console (Unit {0})
unfolding touch_key
record_use now touch_after id = statement (touch_key id now touch_after)

-- `Issue`, which writes the label as it is given.
abbrev pub issued_key : SharedId → Text → Text → Time → Key
issued_key id source_id label now = record {
  id = id;
  source_id = source_id;
  label = label;
  created_at = now;
  last_used_at = none;
  expires_at = none;
  revoked_at = none;
}

unfoldable pub issue :
    Gate → Result (Text × Text) → SharedId → Time → User → Text → Text → Effect Console (Text × Key)
unfolding one do_act create_key
issue g minted id now actor source_id label = do
  _ ← one actor source_id
  pair ← lift minted
  do_act g (some actor)
      (record { verb = act_key_issue; target_type = key_kind; target_id = id; note = [] })
      (statement (create_key (issued_key id source_id label now) pair.1))
  pure (pair.0, issued_key id source_id label now)

-- `List`.
unfoldable pub list_keys : User → Text → Effect Console (List Key)
unfolding one earlier
list_keys actor source_id = do
  _ ← one actor source_id
  query (λ t.
      ok (
        map (λ (r : KeyRow). r.key) (order_by earlier (filter_where (is_key_of source_id) t.keys))))

abbrev pub holds : List Key → SharedId → Bool
holds keys id = any (λ (k : Key). text_eqb k.id id) keys

-- `Revoke`.
unfoldable pub revoke : Gate → Time → User → Text → SharedId → Effect Console (Unit {0})
unfolding list_keys do_act revoke_key
revoke g now actor source_id id = do
  keys ← list_keys actor source_id
  (if holds keys id
      then do_act g (some actor)
          (record { verb = act_key_revoke; target_type = key_kind; target_id = id; note = [] })
          (statement (revoke_key id now))
      else fail (refused not_found key_not_found))
