-- ===== src/Registrar.antt =====
-- The callback of a source and its signing secret: internal/core/usecase/register.go, with
-- internal/core/domain/webhook/service.go, internal/adapter/secret/webhook.go and the statements of
-- internal/adapter/db/postgres/webhook.go that they run.
pub mod Issued
pub mod Again
use srosha.Prelude.{
  ℕ, Bool, true, false, not, ◌&&◌, ◌||◌, Option, none, some, List, [], ◌∷◌, ◌++◌, Text, text,
  text_eqb, any, is_empty, if◌then◌else◌,
}
use srosha.Errs.{
  Error, app, str, refused, detailed, internal, not_found, duplicate_entry, source_not_found,
  webhook_not_found,
}
use srosha.Errs.Result.{Result, ok, err, changed_to}
use srosha.Effect.{Effect, ◌>>=◌, ◌>>◌, pure, lift, statement, query}
use srosha.Table.{find_where, count_where, change_where, or_missing, wrote}
use srosha.Encode.Base64.{encode}
use srosha.Shared.Id.{SharedId}
use srosha.Delivery.{Time}
use srosha.Source.{Source}
use srosha.Webhook
use srosha.Webhook.{Webhook, Net, UrlPolicy, redirect, deactivate, activate}
use srosha.Vault.{Keyring, optional, deref}

-- A row of webhooks: the entity and its sealed signing secret, which may be null.
pub record HookRow : Type 0 where
  pub hook : Webhook
  pub secret : Option Text

pub record Hooks : Type 0 where
  pub sources : List Source
  pub rows : List HookRow

abbrev pub of_source : Text → HookRow → Bool
of_source source_id r = text_eqb r.hook.source_id source_id

abbrev pub has_id : SharedId → HookRow → Bool
has_id id r = text_eqb r.hook.id id

-- What `CreateWebhook` inserts.
abbrev pub new_row : Webhook → HookRow
new_row w = record {
  hook = record w { is_active = true; consecutive_failures = 0; updated_at = w.created_at };
  secret = none;
}

-- `Create`, with the two unique indexes.
unfoldable pub create_hook : Webhook → Hooks → Result (Unit {0}) × Hooks
create_hook w t =
    if any (of_source w.source_id) t.rows || any (has_id w.id) t.rows
    then (err (app duplicate_entry str), t)
    else (ok tt, record t { rows = new_row w ∷ t.rows })

abbrev pub hook_of : Option HookRow → Option Webhook
hook_of none = none
hook_of (some r) = some r.hook

-- `ReadBySourceID`.
unfoldable pub read_hook : Text → Hooks → Result (Option Webhook)
read_hook source_id t = ok (hook_of (find_where (of_source source_id) t.rows))

-- `Redirect` of the repository, which writes what moving the address means.
abbrev pub as_redirected : Webhook → HookRow → HookRow
as_redirected w r = record r {
  hook = record r.hook {
    callback_url = w.callback_url;
    is_active = true;
    consecutive_failures = 0;
    updated_at = w.updated_at;
  };
}

unfoldable pub redirect_row : Webhook → Hooks → Result (Unit {0}) × Hooks
redirect_row w t = (
  wrote (count_where (has_id w.id) t.rows) (detailed not_found webhook_not_found),
  record t { rows = change_where (has_id w.id) (as_redirected w) t.rows },
)

-- `setActive`: a row that is switched already is not written, and none is asked for.
abbrev pub as_switched : Bool → Time → HookRow → HookRow
as_switched active now r = record r {
  hook = record r.hook {
    is_active = active;
    consecutive_failures = if active then 0 else r.hook.consecutive_failures;
    updated_at = now;
  };
}

abbrev pub is_switched : Bool → HookRow → Bool
is_switched true r = not r.hook.is_active
is_switched false r = r.hook.is_active

unfoldable pub set_active : Webhook → Bool → Hooks → Result (Unit {0}) × Hooks
set_active w active t = (
  ok tt,
  record t {
    rows =
        change_where (λ (r : HookRow). has_id w.id r && is_switched active r)
          (as_switched active w.updated_at) t.rows;
  },
)

-- `WriteSecret` and `ReadSecret`.
abbrev pub is_hook : Text → SharedId → HookRow → Bool
is_hook source_id id r = has_id id r && of_source source_id r

abbrev pub with_secret : Text → Time → HookRow → HookRow
with_secret secret now r = record r {
  hook = record r.hook { updated_at = now };
  secret = optional secret;
}

unfoldable pub write_secret : Text → SharedId → Text → Time → Hooks → Result (Unit {0}) × Hooks
write_secret source_id id secret now t = (
  wrote (count_where (is_hook source_id id) t.rows) (detailed not_found webhook_not_found),
  record t { rows = change_where (is_hook source_id id) (with_secret secret now) t.rows },
)

abbrev pub kept_secret : Option HookRow → SharedId × Text
kept_secret none = ([], [])
kept_secret (some r) = (r.hook.id, deref r.secret)

unfoldable pub read_secret : Text → Hooks → SharedId × Text
read_secret source_id t = kept_secret (find_where (of_source source_id) t.rows)

-- `bindWebhook`.
abbrev pub bind_webhook : Text → SharedId → Text
bind_webhook source_id id = source_id ++ (text "|" ++ id)

-- `newSigningSecret`, at the bytes that `rand.Read` drew or its error.
unfoldable pub new_signing_secret : Result Text → Result Text
unfolding encode
new_signing_secret (err e) = err (app internal str)
new_signing_secret (ok raw) = ok (text "whsec_" ++ encode raw)

abbrev pub stored : Result Text → Result Text
stored (err e) = err (app internal e)
stored (ok value) = ok value

abbrev pub answer : Result Text → Option Text
answer (err e) = none
answer (ok plain) = some plain

module _ (keys : Keyring) where
  -- `WebhookKeeper.Issue`.
  unfoldable pub issue : Result Text → Time → Text → SharedId → Effect Hooks Text
  unfolding new_signing_secret write_secret
  issue drawn now source_id id = do
    plain ← lift (new_signing_secret drawn)
    value ← lift (stored (keys.seal plain (bind_webhook source_id id)))
    statement (write_secret source_id id value now)
    pure plain

  opened_secret : Text → SharedId × Text → Option Text
  opened_secret source_id (id, value) =
      if is_empty value then none else answer (keys.open_sealed value (bind_webhook source_id id))

  -- `WebhookKeeper.SecretFor`, where the read does not fail.
  unfoldable pub secret_for : Text → Hooks → Option Text
  unfolding opened_secret read_secret
  secret_for source_id t = opened_secret source_id (read_secret source_id t)

-- `Manage`.
unfoldable pub owner : Text → Hooks → Result Source
owner source_id t =
    or_missing (find_where (λ (s : Source). text_eqb s.id source_id) t.sources)
      (refused not_found source_not_found)

unfoldable pub manage : Text → Effect Hooks Source
unfolding owner
manage source_id = query (owner source_id)

-- `webhook.Service.Register`, at the callback that there is.
unfoldable pub registered :
    Net → UrlPolicy → SharedId → Time → Text → Text → Option Webhook → Effect Hooks Webhook
unfolding Webhook.new create_hook redirect redirect_row
registered net policy id now source_id url none = do
  w ← lift (Webhook.new net id source_id url policy now)
  statement (create_hook w)
  pure w
registered net policy id now source_id url (some w) = do
  moved ← lift (changed_to (redirect net url policy now w))
  statement (redirect_row moved)
  pure moved

unfoldable pub register_hook :
    Net → UrlPolicy → SharedId → Time → Text → Text → Effect Hooks Webhook
unfolding read_hook registered
register_hook net policy id now source_id url = do
  existing ← query (read_hook source_id)
  registered net policy id now source_id url existing

-- What `Register` does behind the registration: only the first one issues a secret.
unfoldable pub first_secret :
    Keyring → Result Text → Time → Text → Option Webhook → Webhook → Effect Hooks (Webhook × Text)
unfolding issue
first_secret keys drawn now source_id (some _) w = pure (w, [])
first_secret keys drawn now source_id none w = do
  secret ← issue keys drawn now source_id w.id
  pure (w, secret)

-- `Registrar.Register`.
unfoldable pub register :
    Keyring
    → Net
    → UrlPolicy
    → Result Text
    → SharedId
    → Time
    → Text
    → Text
    → Effect Hooks (Webhook × Text)
unfolding manage read_hook register_hook first_secret
register keys net policy drawn id now source_id url = do
  _ ← manage source_id
  existing ← query (read_hook source_id)
  w ← register_hook net policy id now source_id url
  first_secret keys drawn now source_id existing w

-- `Registrar.Get`.
unfoldable pub get_hook : Text → Effect Hooks Webhook
unfolding manage read_hook
get_hook source_id = do
  _ ← manage source_id
  existing ← query (read_hook source_id)
  lift (or_missing existing (refused not_found webhook_not_found))

-- `Registrar.RotateSecret`, `Deactivate` and `Activate`.
unfoldable pub rotate_secret : Keyring → Result Text → Time → Text → Effect Hooks Text
unfolding get_hook issue
rotate_secret keys drawn now source_id = do
  w ← get_hook source_id
  issue keys drawn now source_id w.id

unfoldable pub deactivate_hook : Time → Text → Effect Hooks (Unit {0})
unfolding get_hook deactivate set_active
deactivate_hook now source_id = do
  w ← get_hook source_id
  statement (set_active (deactivate now w) false)

unfoldable pub activate_hook : Time → Text → Effect Hooks (Unit {0})
unfolding get_hook activate set_active
activate_hook now source_id = do
  w ← get_hook source_id
  statement (set_active (activate now w) true)
