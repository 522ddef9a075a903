-- ===== src/Vault/Methods.antt =====
-- internal/core/usecase/credential.go and internal/adapter/secret/keeper.go, on the statements of the
-- parent.
use srosha.Prelude.{
  Bool, true, false, ◌||◌, [], ◌++◌, Text, text, text_eqb, is_empty, if◌then◌else◌,
}
use srosha.Errs.{app, str, refused, invalid_input, invalid_id, not_found, source_not_found}
use srosha.Errs.Result.{Result, ok, err, changed_to, refuse_if}
use srosha.Effect.{Effect, ◌>>=◌, ◌>>◌, pure, lift, statement, query, attempt, atomically}
use srosha.Table.{find_where, or_missing}
use srosha.Shared.Id.{SharedId, is_zero}
use srosha.Shared.Channel.{Channel, name}
use srosha.Delivery.{Time}
use srosha.Source.{Source}
use srosha.Credential
use srosha.Credential.{Credential, make_default, deactivate, activate}
use srosha.Vault.{
  Vault, Keyring, create, read_by_id, clear_default, set_active, set_default_row, read_material,
  rotate_secret, reseal_row, update_config,
}

abbrev pub bind : Text → Channel → SharedId → Text
unfolding name
bind source_id c id = source_id ++ (text "|" ++ (name c ++ (text "|" ++ id)))

-- The sealing of `Add` and `Replace`: no secret is stored as none.
unfoldable pub sealed : Keyring → Credential → Text → Result Text
unfolding bind
sealed keys c secret =
    if is_empty secret then ok [] else keys.seal secret (bind c.source_id c.channel c.id)

-- `Keeper.Add` and `Keeper.Replace`.
unfoldable pub add : Keyring → Credential → Text → Text → Effect Vault (Unit {0})
unfolding sealed create
add keys c config secret = do value ← lift (sealed keys c secret); statement (create c config value)

unfoldable pub replace : Keyring → Time → Credential → Text → Effect Vault (Unit {0})
unfolding sealed rotate_secret
replace keys now c secret = do
  value ← lift (sealed keys c secret)
  statement (rotate_secret c.source_id c.id value now)

-- `Manage`, and with it `get`.
unfoldable pub manage : Text → Effect Vault Source
manage source_id = query (λ t.
    or_missing (find_where (λ (s : Source). text_eqb s.id source_id) t.sources)
      (refused not_found source_not_found))

unfoldable pub get : Text → SharedId → Effect Vault Credential
unfolding manage read_by_id
get source_id id = do
  _ ← manage source_id
  lift (refuse_if (is_zero id) (refused invalid_input invalid_id))
  query (read_by_id source_id id)

-- `validConfig`, with the verdict of `json.Valid` given.
abbrev pub valid_config : Bool → Text → Result (Unit {0})
valid_config is_json config =
    if is_empty config || is_json then ok tt else err (app invalid_input str)

-- `Register`.
unfoldable pub register :
    Keyring
    → Bool
    → SharedId
    → Time
    → Text
    → Channel
    → Text
    → Text
    → Text
    → Bool
    → Effect Vault Credential
unfolding manage Credential.new clear_default add
register keys is_json id now source_id c title config secret is_default = do
  _ ← manage source_id
  lift (valid_config is_json config)
  cred ← lift (Credential.new id source_id c title is_default now)
  atomically (do
    (if is_default then statement (clear_default source_id c now) else pure tt)
    add keys cred config secret)
  pure cred

-- `Deactivate` and `Activate`, with those of the domain's service.
unfoldable pub deactivate_one : Time → Text → SharedId → Effect Vault Credential
unfolding get deactivate set_active
deactivate_one now source_id id = do
  c ← get source_id id
  statement (set_active (deactivate now c) false)
  pure (deactivate now c)

unfoldable pub activate_one : Time → Text → SharedId → Effect Vault Credential
unfolding get activate set_active
activate_one now source_id id = do
  c ← get source_id id
  statement (set_active (activate now c) true)
  pure (activate now c)

-- `SetDefault`. The clock is read once for what is cleared and once for what is set.
unfoldable pub set_default : Time → Time → Text → SharedId → Effect Vault Credential
unfolding get clear_default make_default set_default_row
set_default cleared_at set_at source_id id = do
  c ← get source_id id
  atomically (do
    statement (clear_default source_id c.channel cleared_at)
    made ← lift (changed_to (make_default set_at c))
    statement (set_default_row made)
    pure made)

-- `Rotate` and `Update`.
unfoldable pub rotate : Keyring → Time → Text → SharedId → Text → Effect Vault Credential
unfolding get replace
rotate keys now source_id id secret = do c ← get source_id id; replace keys now c secret; pure c

unfoldable pub update : Bool → Time → Text → SharedId → Text → Effect Vault Credential
unfolding get update_config
update is_json now source_id id config = do
  c ← get source_id id
  lift (valid_config is_json config)
  statement (update_config source_id id config now)
  pure c

-- `reseal`: a value under an older key is written back under the active one.
unfoldable pub reseal : Keyring → Time → SharedId → Text → Text → Text → Effect Vault (Unit {0})
unfolding reseal_row
reseal keys now id value plain aad =
    if keys.needs_reseal value
    then (do
      next ← lift (keys.seal plain aad)
      _ ← statement (reseal_row id value next now)
      pure tt)
    else pure tt

-- `Material`, behind the read. An error of the resealing is only logged.
unfoldable pub open_material :
    Keyring → Time → Text → Channel → SharedId → Text × Text → Effect Vault (Text × Text)
unfolding bind reseal
open_material keys now source_id c id (config, value) =
    if is_empty value then pure (config, []) else (do
      plain ← lift (keys.open_sealed value (bind source_id c id))
      attempt (reseal keys now id value plain (bind source_id c id))
      pure (config, plain))

unfoldable pub material : Keyring → Time → Text → Channel → SharedId → Effect Vault (Text × Text)
unfolding read_material open_material
material keys now source_id c id = do
  pair ← query (read_material id)
  open_material keys now source_id c id pair
