-- ===== src/Console.antt =====
-- The console: what people do who sign in (internal/core/usecase), on the tables of
-- internal/adapter/db/postgres.
pub mod SignIn
pub mod Gate
pub mod Sources
pub mod Keys
pub mod Operators
pub mod Audited
use srosha.Prelude.{ℕ, Bool, true, false, ◌&&◌, Option, none, some, List, [], ◌∷◌, Text, text_eqb}
use srosha.Errs.{
  Error, detailed, refused, not_found, user_not_found, session_not_found, code_not_found,
}
use srosha.Errs.Result.{Result, ok, err}
use srosha.Shared.Id.{SharedId}
use srosha.Delivery.{Time}
use srosha.Source.{Source}
use srosha.User.{User}
use srosha.LoginCode.{LoginCode}
use srosha.Session.{Session}
use srosha.Key.{Key}

-- `AuditEntry` of gate.go.
pub record AuditEntry : Type 0 where
  pub id : SharedId
  pub at : Time
  pub actor_id : SharedId
  pub actor_email : Text
  pub verb : Text
  pub target_type : Text
  pub target_id : Text
  pub note : Text

-- A row of api_keys: the key as the domain knows it, and its hash.
pub record KeyRow : Type 0 where
  pub key : Key
  pub open key use *
  pub key_hash : Text

-- The tables, the newest row first where a statement appends; the alerts that were raised, and the
-- mails that were handed over, each an address and a code.
pub record Console : Type 0 where
  pub users : List User
  pub codes : List LoginCode
  pub sessions : List Session
  pub sources : List Source
  pub keys : List KeyRow
  pub audit : List AuditEntry
  pub alerts : List AuditEntry
  pub mails : List (Text × Text)
