-- ===== src/Console/Operators/Refused.antt =====
-- Refusals of the panel (operator.go, operator_people.go, and of operator_read.go those that read
-- the tables behind people).
use srosha.Prelude.{ℕ, ◌≡◌, ◌≢◌, refl, Bool, false, Option, none, some, Text, text_eqb_iff}
use srosha.Errs.{
  Error, detailed, forbidden, invalid_input, not_operator, not_super_admin, self_target,
}
use srosha.Errs.Result.{ok, err}
use srosha.Effect.{Under, Effect}
use srosha.Shared.Id.{SharedId}
use srosha.Delivery.{Time}
use srosha.User.{User, Role, customer, other_role, super_admin, admin, is_operator}
use srosha.Console.{Console}
use srosha.Console.Gate.{Gate}
use srosha.Console.Operators.{
  may_operate, may_govern, not_self, for_decision, for_person, approve_source, refuse_source,
  suspend_source, restore_source, set_role, set_person_active,
}
use srosha.Console.Operators.Reads.{
  queue, all_sources, source_of, people, person, audit_log, source_history,
}

-- Code that stops with an error and leaves the tables, and the statements to come, as they were.
abbrev pub Refuses : {A : Type 0} → Error → Effect Console A → Type 0
Refuses {A = A} e m = (u : Under Console) → m u ≡ (err e, u)

-- What every operator may ask for, of what the model has.
abbrev pub OperatorsRefuse : Option User → Error → Type 0
OperatorsRefuse actor e =
    (g : Gate) (now : Time) (limit : ℕ) (id note : Text)
    → Refuses e (approve_source g now actor id)
      × Refuses e (refuse_source g now actor id note)
      × Refuses e (suspend_source g now actor id note)
      × Refuses e (restore_source g now actor id)
      × Refuses e (queue limit actor)
      × Refuses e (all_sources limit actor)
      × Refuses e (source_of actor id)
      × Refuses e (source_history limit actor id)

-- What only a super_admin may ask for.
abbrev pub GovernorsRefuse : Option User → Error → Type 0
GovernorsRefuse actor e =
    (g : Gate) (now : Time) (limit : ℕ) (id : SharedId) (role : Role) (on : Bool) (note : Text)
    → Refuses e (set_role g now actor id role note)
      × Refuses e (set_person_active g now actor id on note)
      × Refuses e (people limit actor)
      × Refuses e (person actor id)
      × Refuses e (audit_log limit actor)

operators-refuse :
    (actor : Option User) (e : Error) → may_operate actor ≡ err e → OperatorsRefuse actor e
unfolding approve_source refuse_source suspend_source restore_source for_decision queue all_sources
    source_of source_history
operators-refuse actor e h g now limit id note = (
  λ u. rw h refl,
  λ u. rw h refl,
  λ u. rw h refl,
  λ u. rw h refl,
  λ u. rw h refl,
  λ u. rw h refl,
  λ u. rw h refl,
  λ u. rw h refl,
)

governors-refuse :
    (actor : Option User) (e : Error) → may_govern actor ≡ err e → GovernorsRefuse actor e
unfolding set_role set_person_active for_person people person audit_log
governors-refuse actor e h g now limit id role on note =
    (λ u. rw h refl, λ u. rw h refl, λ u. rw h refl, λ u. rw h refl, λ u. rw h refl)

outsider : (r : Role) → r ≢ admin → r ≢ super_admin → is_operator r ≡ false
outsider customer n m = refl
outsider admin n m = absurd (n refl)
outsider super_admin n m = absurd (m refl)
outsider (other_role t) n m = refl

self-refused :
    (a : User) (g : Gate) (now : Time) (role : Role) (on : Bool) (note : Text)
    → may_govern (some a) ≡ ok tt
    → Refuses (detailed invalid_input self_target) (set_role g now (some a) a.id role note)
      × Refuses (detailed invalid_input self_target) (set_person_active g now (some a) a.id on note)
unfolding set_role set_person_active for_person not_self
self-refused a g now role on note h =
    let own = (text_eqb_iff a.id a.id).1 refl in (λ u. rw (h, own) refl, λ u. rw (h, own) refl)

-- Nobody, and anybody who is neither an admin nor a super_admin, is refused the decisions about
-- sources, the queue, the sources, one source and its history, and what is about people and the
-- whole audit, as no operator; an admin is refused what is about people, and the whole audit, as no
-- super_admin; and a super_admin is refused a change of their own account. No such refusal changes
-- anything or runs a statement.
pub panel-Refuses :
    (a : User)
    → OperatorsRefuse none (detailed forbidden not_operator)
      × GovernorsRefuse none (detailed forbidden not_operator)
      × (a.role ≢ admin
          → a.role ≢ super_admin
          → OperatorsRefuse (some a) (detailed forbidden not_operator)
            × GovernorsRefuse (some a) (detailed forbidden not_operator))
      × (a.role ≡ admin → GovernorsRefuse (some a) (detailed forbidden not_super_admin))
      × (a.role ≡ super_admin
          → (g : Gate) (now : Time) (role : Role) (on : Bool) (note : Text)
          → Refuses (detailed invalid_input self_target) (set_role g now (some a) a.id role note)
            × Refuses
                (detailed invalid_input self_target)
                (set_person_active g now (some a) a.id on note))
unfolding may_operate may_govern
panel-Refuses a = (
  operators-refuse none _ refl,
  governors-refuse none _ refl,
  (λ n m. (
    operators-refuse (some a) _ (rw (outsider a.role n m) refl),
    governors-refuse (some a) _ (rw (outsider a.role n m) refl),
  )),
  (λ r. governors-refuse (some a) _ (rw r refl)),
  (λ r g now role on note. self-refused a g now role on note (rw r refl)),
)
