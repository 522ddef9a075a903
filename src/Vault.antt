-- ===== src/Vault.antt =====
-- The credentials of sources: a row and its statements (internal/adapter/db/postgres/credential.go).
-- Sealing, in internal/adapter/secret, is cryptography, and is given.
pub mod Defaults
pub mod Kept
pub mod Methods
pub mod Resealed
use srosha.Prelude.{
  ℕ, Bool, true, false, not, ◌&&◌, ◌||◌, Option, none, some, List, [], ◌∷◌, ◌++◌, Text, text,
  text_eqb, text_leb, any, map, is_empty, if◌then◌else◌, ◌==◌,
}
use srosha.Errs.{
  Error, app, str, refused, detailed, invalid_input, invalid_id, not_found, duplicate_entry,
  credential_not_found, default_unusable, source_not_found,
}
use srosha.Errs.Result.{Result, ok, err, changed_to, refuse_if}
use srosha.Effect.{
  Effect, ◌>>=◌, ◌>>◌, pure, fail, lift, statement, query, attempt, atomically, driver_failure,
}
use srosha.Table.{find_where, filter_where, count_where, change_where, order_by, or_missing, wrote}
use srosha.Shared.Id.{SharedId, is_zero}
use srosha.Shared.Channel.{Channel, channel_eqb, name}
use srosha.Delivery.{Time}
use srosha.Source.{Source}
use srosha.Credential
use srosha.Credential.{Credential, make_default, deactivate, activate}

-- A row of credentials: the entity, its settings and its sealed secret, which may be null.
pub record Row : Type 0 where
  pub cred : Credential
  pub config : Text
  pub secret : Option Text

pub record Vault : Type 0 where
  pub sources : List Source
  pub rows : List Row

-- What the adapter takes from the keyring: sealing and opening under a binding, and whether a
-- value is sealed with a key that is no longer the active one.
pub record Keyring : Type 0 where
  pub seal : Text → Text → Result Text
  pub open_sealed : Text → Text → Result Text
  pub needs_reseal : Text → Bool

abbrev pub empty_config : Text
empty_config = text "{}"

abbrev pub or_empty : Text → Text
or_empty config = if is_empty config then empty_config else config

abbrev pub optional : Text → Option Text
optional t = if is_empty t then none else some t

abbrev pub deref : Option Text → Text
deref none = []
deref (some t) = t

-- What the unique indexes look at.
abbrev pub same_slot : Text → Channel → Row → Bool
same_slot source_id c r = text_eqb r.cred.source_id source_id && channel_eqb r.cred.channel c

abbrev pub is_default_of : Text → Channel → Row → Bool
is_default_of source_id c r = same_slot source_id c r && r.cred.is_default

abbrev pub same_name : Credential → Row → Bool
same_name c r = same_slot c.source_id c.channel r && text_eqb r.cred.name c.name

abbrev pub is_row : SharedId → Text → Row → Bool
is_row id source_id r = text_eqb r.cred.id id && text_eqb r.cred.source_id source_id

-- `Create`: the indexes are looked at one after the other, and each refuses.
unfoldable pub create : Credential → Text → Text → Vault → Result (Unit {0}) × Vault
create c config secret t =
    if any (same_name c) t.rows
      || (c.is_default && any (is_default_of c.source_id c.channel) t.rows)
      || any (λ (r : Row). text_eqb r.cred.id c.id) t.rows
    then (err (app duplicate_entry str), t)
    else (
      ok tt,
      record t {
        rows =
            record {
              cred = record c { is_active = true; updated_at = c.created_at };
              config = or_empty config;
              secret = optional secret;
            }
            ∷ t.rows;
      },
    )

unfoldable pub read_by_id : Text → SharedId → Vault → Result Credential
read_by_id source_id id t =
    or_missing (found (find_where (is_row id source_id) t.rows))
      (detailed not_found credential_not_found)
  where
    found : Option Row → Option Credential
    found none = none
    found (some r) = some r.cred

abbrev pub as_unset : Time → Row → Row
as_unset now r = record r { cred = record r.cred { is_default = false; updated_at = now } }

unfoldable pub clear_default : Text → Channel → Time → Vault → Result (Unit {0}) × Vault
clear_default source_id c now t =
    (ok tt, record t { rows = change_where (is_default_of source_id c) (as_unset now) t.rows })

-- `SetCredentialActive`, where switching off takes the default away.
abbrev pub as_switched : Bool → Time → Row → Row
as_switched active now r = record r {
  cred = record r.cred {
    is_active = active;
    is_default = if active then r.cred.is_default else false;
    updated_at = now;
  };
}

abbrev pub differs : Bool → Bool → Bool
differs true b = not b
differs false b = b

unfoldable pub set_active : Credential → Bool → Vault → Result (Unit {0}) × Vault
set_active c active t = (
  ok tt,
  record t {
    rows =
        change_where (λ (r : Row). is_row c.id c.source_id r && differs r.cred.is_active active)
          (as_switched active c.updated_at) t.rows;
  },
)

abbrev pub as_set : Time → Row → Row
as_set now r = record r { cred = record r.cred { is_default = true; updated_at = now } }

abbrev pub is_usable_row : Credential → Row → Bool
is_usable_row c r = is_row c.id c.source_id r && r.cred.is_active

-- The index of defaults: no two of one source on one channel.
unfoldable pub one_default : List Row → Bool
one_default [] = true
one_default (r ∷ rows) =
    not (r.cred.is_default && any (is_default_of r.cred.source_id r.cred.channel) rows)
    && one_default rows

-- `SetDefault`.
unfoldable pub set_default_row : Credential → Vault → Result (Unit {0}) × Vault
unfolding one_default
set_default_row c t =
    let rows = change_where (is_usable_row c) (as_set c.updated_at) t.rows in
    if one_default rows
    then (
      wrote (count_where (is_usable_row c) t.rows) (detailed invalid_input default_unusable),
      record t { rows = rows },
    )
    else (err driver_failure, t)

-- `ReadMaterial`, `Rotate`, `UpdateConfig` and `Reseal`.
abbrev pub is_active_row : SharedId → Row → Bool
is_active_row id r = text_eqb r.cred.id id && r.cred.is_active

abbrev pub material_of : Option Row → Option (Text × Text)
material_of none = none
material_of (some r) = some (r.config, deref r.secret)

unfoldable pub read_material : SharedId → Vault → Result (Text × Text)
read_material id t =
    or_missing (material_of (find_where (is_active_row id) t.rows))
      (detailed not_found credential_not_found)

unfoldable pub rotate_secret : Text → SharedId → Text → Time → Vault → Result (Unit {0}) × Vault
rotate_secret source_id id secret now t = (
  wrote (count_where (λ (r : Row). is_row id source_id r && r.cred.is_active) t.rows)
      (detailed not_found credential_not_found),
  record t {
    rows =
        change_where (λ (r : Row). is_row id source_id r && r.cred.is_active)
          (λ (r : Row). record r {
            secret = optional secret;
            cred = record r.cred { updated_at = now };
          })
          t.rows;
  },
)

unfoldable pub update_config : Text → SharedId → Text → Time → Vault → Result (Unit {0}) × Vault
update_config source_id id config now t = (
  wrote (count_where (is_row id source_id) t.rows) (detailed not_found credential_not_found),
  record t {
    rows =
        change_where (is_row id source_id)
          (λ (r : Row). record r {
            config = or_empty config;
            cred = record r.cred { updated_at = now };
          })
          t.rows;
  },
)

-- `Reseal` matches on the value that was read, and reports whether a row was written.
abbrev pub is_sealed_as : Text → Option Text → Bool
is_sealed_as previous none = false
is_sealed_as previous (some secret) = text_eqb secret previous

abbrev pub is_resealed_row : SharedId → Text → Row → Bool
is_resealed_row id previous r =
    text_eqb r.cred.id id && not (is_empty previous) && is_sealed_as previous r.secret

abbrev pub as_resealed : Text → Time → Row → Row
as_resealed secret now r = record r {
  secret = optional secret;
  cred = record r.cred { updated_at = now };
}

unfoldable pub reseal_row : SharedId → Text → Text → Time → Vault → Result Bool × Vault
reseal_row id previous secret now t = (
  ok (not (count_where (is_resealed_row id previous) t.rows == 0)),
  record t { rows = change_where (is_resealed_row id previous) (as_resealed secret now) t.rows },
)
