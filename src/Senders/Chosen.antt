-- ===== src/Senders/Chosen.antt =====
-- When a message goes out with srosha's own identity, and when with that of its source.
use srosha.Prelude.{◌≡◌, Bool, true, [], Text, is_empty}
use srosha.Errs.{errors_is, no_credentials}
use srosha.Errs.Result.{Result, ok, err}
use srosha.Effect.{Under}
use srosha.Shared.Channel.{Channel}
use srosha.Delivery.{Time}
use srosha.Credential.{Credential, pick}
use srosha.Vault.{Vault, Keyring}
use srosha.Vault.Methods.{material}
use srosha.Senders.Configs.{Outside, Sender}
use srosha.Senders.Registry.{Fallback, ours, build}
use srosha.Senders.Lookup.{list_channel}

-- Whether an answer is the error for no credentials at all.
asks_none : {A : Type 0} → Bool → Result A → Bool
asks_none otherwise (err e) = errors_is e no_credentials
asks_none otherwise (ok a) = otherwise

abbrev answered : {A : Type 0} → Result A × Under Vault → Result A
answered o = o.0

abbrev left_at : {A : Type 0} → Result A × Under Vault → Vault
left_at o = o.1.0

abbrev with_answer : {A : Type 0} → Result A → Under Vault → Result A × Under Vault
with_answer r u = (r, u)

module _ (o : Outside) (own : Fallback) (keys : Keyring) (now : Time) (source_id : Text)
    (c : Channel) (name : Text) where
  -- The sender is srosha's own.
  pub record IsOwn (s t : Under Vault) (sender : Sender) : Type 0 where
    unnamed : is_empty name ≡ true
    none_registered : list_channel source_id c s.0 ≡ []
    built : ours o own c ≡ ok sender
    same : t.0 ≡ s.0

  -- The sender is that of the source: of a credential that `pick` chose, with its material.
  pub record IsTheirs (s t : Under Vault) (sender : Sender) : Type 0 where
    cred : Credential
    chosen : pick (list_channel source_id c s.0) name ≡ ok cred
    config : Text
    secret : Text
    u : Under Vault
    same : u.0 ≡ s.0
    opened : material keys now source_id c cred.id u ≡ (ok (config, secret), t)
    built : build o own c config secret ≡ ok sender
