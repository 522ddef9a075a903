-- ===== src/Senders/Lookup.antt =====
-- `For` of internal/adapter/sender/registry.go, with the choice among the credentials of a source.
use srosha.Prelude.{◌&&◌, List, map, Text, text_leb, is_empty, if◌then◌else◌}
use srosha.Errs.{errors_is, no_credentials}
use srosha.Errs.Result.{Result, ok, err}
use srosha.Effect.{Under, Effect, ◌>>=◌, lift, fail, query}
use srosha.Table.{filter_where, order_by}
use srosha.Shared.Channel.{Channel}
use srosha.Delivery.{Time}
use srosha.Credential.{Credential, pick}
use srosha.Vault.{Vault, Row, Keyring, same_slot}
use srosha.Vault.Methods.{material}
use srosha.Senders.Configs.{Outside, Sender}
use srosha.Senders.Registry.{Fallback, ours, build}

-- `ListBySourceAndChannel`.
unfoldable pub list_channel : Text → Channel → Vault → List Credential
list_channel source_id c t =
    map (λ (r : Row). r.cred)
      (order_by (λ (a : Row) (b : Row). text_leb a.cred.id b.cred.id)
        (filter_where (same_slot source_id c) t.rows))

-- `credential.Service.Resolve`.
unfoldable pub resolve : Text → Channel → Text → Effect Vault Credential
unfolding list_channel pick
resolve source_id c name = do
  creds ← query (λ (t : Vault). ok (list_channel source_id c t))
  lift (pick creds name)

module _ (o : Outside) (own : Fallback) where
  -- `For`, at what was resolved.
  unfoldable pub resolved :
      Keyring
      → Time
      → Text
      → Channel
      → Text
      → Result Credential × Under Vault
      → Result Sender × Under Vault
  unfolding ours material build errors_is
  resolved keys now source_id c name (err e, u) =
      (if is_empty name && errors_is e no_credentials then lift (ours o own c) else fail e) u
  resolved keys now source_id c name (ok cred, u) =
      (material keys now source_id c cred.id
          >>= (λ (m : Text × Text). lift (build o own c m.0 m.1)))
        u

  -- `For`.
  unfoldable pub sender_for : Keyring → Time → Text → Channel → Text → Effect Vault Sender
  unfolding resolve resolved
  sender_for keys now source_id c name u =
      resolved keys now source_id c name (resolve source_id c name u)
