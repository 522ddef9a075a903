-- ===== src/Console/Audited.antt =====
-- Changes that go through the gate, and the audit.
use srosha.Prelude.{◌≡◌, ◌⊎◌, Bool, some, ◌∷◌, Text, text_eqb}
use srosha.Errs.Result.{Result}
use srosha.Effect.{Under, query}
use srosha.Effect.Keeps.{Keeps, Still, bind-Still, lift-Still, query-Still, if-Still}
use srosha.Shared.Id.{SharedId}
use srosha.Delivery.{Time}
use srosha.Source
use srosha.Source.{Source, Addresses}
use srosha.Key.{Key}
use srosha.User.{User, Role}
use srosha.Console.{Console}
use srosha.Console.Gate.{Gate, Act, entry_of}
use srosha.Console.Sources.{register, update, one}
use srosha.Console.Keys.{issue, revoke, list_keys}
use srosha.Console.Operators.{
  approve_source, refuse_source, suspend_source, restore_source, set_role, set_person_active,
}

-- Changes that people and operators ask for through the gate. A person that signs in for the first
-- time is stored without it, and a trial of a channel is not among them.
pub data Request : Type 0 where
  register_source : Text → Time → Text → Addresses → Request
  update_source : Time → Text → Text → Text → Addresses → Request
  issue_key : Result (Text × Text) → SharedId → Time → Text → Text → Request
  revoke_key_of : Time → Text → SharedId → Request
  approve_it : Time → Text → Request
  refuse_it : Time → Text → Text → Request
  suspend_it : Time → Text → Text → Request
  restore_it : Time → Text → Request
  change_role_of : Time → SharedId → Role → Text → Request
  switch_person : Time → SharedId → Bool → Text → Request

-- The tables that a request leaves.
unfoldable pub after_request : (Text → Bool) → Gate → User → Request → Under Console → Console
unfolding register update issue revoke approve_source refuse_source suspend_source restore_source
    set_role set_person_active
after_request is_mail g a (register_source id now name ads) u =
    (register is_mail g id now a name ads u).1.0
after_request is_mail g a (update_source now id name about ads) u =
    (update is_mail g now a id name about ads u).1.0
after_request is_mail g a (issue_key minted id now source label) u =
    (issue g minted id now a source label u).1.0
after_request is_mail g a (revoke_key_of now source id) u = (revoke g now a source id u).1.0
after_request is_mail g a (approve_it now id) u = (approve_source g now (some a) id u).1.0
after_request is_mail g a (refuse_it now id note) u = (refuse_source g now (some a) id note u).1.0
after_request is_mail g a (suspend_it now id note) u = (suspend_source g now (some a) id note u).1.0
after_request is_mail g a (restore_it now id) u = (restore_source g now (some a) id u).1.0
after_request is_mail g a (change_role_of now id role note) u =
    (set_role g now (some a) id role note u).1.0
after_request is_mail g a (switch_person now id on note) u =
    (set_person_active g now (some a) id on note u).1.0

-- Nothing was changed, or what was done is the newest row of the audit, under the actor's name.
abbrev pub IsLogged : Gate → User → Console → Console → Type 0
IsLogged g a t t' =
    ((t'.audit ≡ t.audit) × (t'.users ≡ t.users) × (t'.sources ≡ t.sources) × (t'.keys ≡ t.keys))
    ⊎ ((act : Act) × (t'.audit ≡ entry_of g a act ∷ t.audit))

pub one-Still : (a : User) (id : Text) → Still (one a id)
unfolding one
one-Still a id =
    bind-Still (query _) _ (query-Still _)
      (λ s. if-Still (text_eqb s.owner_user_id a.id) _ _ (lift-Still _) (lift-Still _))

pub list_keys-Still : (a : User) (source : Text) → Still (list_keys a source)
unfolding list_keys
list_keys-Still a source = bind-Still (one a source) _ (one-Still a source) (λ _. query-Still _)
