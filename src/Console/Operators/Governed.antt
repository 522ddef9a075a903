-- ===== src/Console/Operators/Governed.antt =====
-- Operations on people, and the one who runs them.
use srosha.Prelude.{
  ◌≡◌, refl, ap, sym, subst, ◌∙◌, inl, inr, Bool, true, false, Bool-cases, ◌&&◌, Option, some, List,
  [], ◌∷◌, Text, text_eqb, text_eqb_iff, any, arith,
}
use srosha.Errs.{detailed, invalid_input, unknown_role}
use srosha.Errs.Result.{Result, ok, err, changed_to, ok_injective, refuse_if_inv}
use srosha.Effect.{Under, lift, statement, query}
use srosha.Effect.Keeps.{
  Keeps, bind-Keeps, bind_after-Keeps, pure-Keeps, lift-Keeps, statement-Keeps, query-Keeps,
}
use srosha.Effect.Inversion.{lift-then, query-then}
use srosha.Table.{find_where, change_where, found_inv}
use srosha.Shared.Id.{SharedId}
use srosha.Delivery.{Time}
use srosha.Console.Gate.Kept.{do_act-Keeps, record_audit-users, tell-users}
use srosha.User.{role_valid, User, Role, is_super_admin, change_role}
use srosha.Console.{Console}
use srosha.Console.SignIn.{is_user, read_user}
use srosha.Console.Gate.{Gate, Act, do_act, record_audit, entry_of, tell}
use srosha.Console.Operators.{
  may_govern, not_self, check_note, for_person, update_role, set_active, set_role,
  set_person_active,
}

-- An active super_admin with an identifier is in the table.
abbrev pub governs : SharedId → User → Bool
governs id u = is_user id u && (is_super_admin u.role && u.is_active)

abbrev pub IsGovernedBy : SharedId → Console → Type 0
IsGovernedBy id t = any (governs id) t.users ≡ true

abbrev Stays : SharedId → Console → Console → Type 0
Stays id t t' = IsGovernedBy id t → IsGovernedBy id t'

Stays-refl : (id : SharedId) (t : Console) → Stays id t t
Stays-refl id t h = h

Stays-trans : (id : SharedId) (s t u : Console) → Stays id s t → Stays id t u → Stays id s u
Stays-trans id s t u f g h = g (f h)

-- A change of another's row.
other-governs :
    (id target : SharedId) (f : User → User) (us : List User)
    → text_eqb target id ≡ false
    → ((u : User) → (f u).id ≡ u.id)
    → any (governs id) (change_where (is_user target) f us) ≡ any (governs id) us
unfolding change_where
other-governs id target f [] n h = refl
other-governs id target f (u ∷ us) n h = elim (Bool-cases (is_user target u)) [
  | inl own ↦
      let off : is_user id u ≡ false =
        ground (arith, text_eqb_iff u.id target, text_eqb_iff u.id id, text_eqb_iff target id) in
      let off' : is_user id (f u) ≡ false = rw (h u) off in
      rw (own, off, off', other-governs id target f us n h) refl
  | inr other ↦ rw (other, other-governs id target f us n h) refl
]

-- The person that an operation is about.
record IsMeant (actor : Option User) (id : SharedId) (target : User) : Type 0 where
  governing : may_govern actor ≡ ok tt
  other : not_self actor id ≡ ok tt
  found : target.id ≡ id

find_where-id :
    (id : SharedId) (us : List User) (u : User) → find_where (is_user id) us ≡ some u → u.id ≡ id
unfolding find_where
find_where-id id [] u h = cc
find_where-id id (v ∷ us) u h = elim (Bool-cases (is_user id v)) [
  | inl own ↦
      let same : some v ≡ some u = rw own at h in
      let same' : v ≡ u = cc in sym (ap (λ (x : User). x.id) same') ∙ (text_eqb_iff v.id id).0 own
  | inr other ↦ find_where-id id us u (rw other at h)
]

for_person-IsMeant :
    (actor : Option User) (id : SharedId) (note : Text) (s t : Under Console) (target : User)
    → for_person actor id note s ≡ (ok target, t)
    → IsMeant actor id target
unfolding for_person read_user
for_person-IsMeant actor id note s t target h =
    lift-then s t target (may_govern actor) _ h (λ _ governing h1.
      lift-then s t target (not_self actor id) _ h1 (λ _ other h2.
        query-then s t target (read_user id) _ h2 (λ u s1 found e h3.
          lift-then s1 t target (check_note note) _ h3 (λ _ fits h4.
            let same : u ≡ target = ok_injective u target (ap (λ x. x.0) h4) in
            record {
              governing = governing;
              other = other;
              found =
                  sym (ap (λ (x : User). x.id) same)
                  ∙ find_where-id id s.0.users u (found_inv _ _ u found);
            }))))

change_role-id :
    (r : Role) (now : Time) (u c : User) → changed_to (change_role r now u) ≡ ok c → c.id ≡ u.id
unfolding change_role
change_role-id r now u c h = elim (Bool-cases (role_valid r)) [
  | inl known ↦
      let same : ok (record u { role = r; updated_at = now }) ≡ ok c = rw known at h in
      sym (ap (λ (x : User). x.id) (ok_injective (record u { role = r; updated_at = now }) c same))
  | inr other ↦ let bad : err (detailed invalid_input unknown_role) ≡ ok c = rw other at h in cc
]

not_self-other :
    (a : User) (id : SharedId) → not_self (some a) id ≡ ok tt → text_eqb id a.id ≡ false
unfolding not_self
not_self-other a id h = refuse_if_inv (text_eqb id a.id) _ h

module _ (a : User) where
  abbrev R : Console → Console → Type 0
  R = Stays a.id

  for_person-Stays : (id : SharedId) (note : Text) → Keeps R (for_person (some a) id note)
  unfolding for_person
  for_person-Stays id note =
      bind-Keeps R (Stays-refl a.id) (Stays-trans a.id) (lift (may_govern (some a))) _
        (lift-Keeps R (Stays-refl a.id) (Stays-trans a.id) _)
        (λ _.
          bind-Keeps R (Stays-refl a.id) (Stays-trans a.id) (lift (not_self (some a) id)) _
            (lift-Keeps R (Stays-refl a.id) (Stays-trans a.id) _)
            (λ _.
              bind-Keeps R (Stays-refl a.id) (Stays-trans a.id) (query (read_user id)) _
                (query-Keeps R (Stays-refl a.id) (Stays-trans a.id) _)
                (λ u.
                  bind-Keeps R (Stays-refl a.id) (Stays-trans a.id) (lift (check_note note)) _
                    (lift-Keeps R (Stays-refl a.id) (Stays-trans a.id) _)
                    (λ _. pure-Keeps R (Stays-refl a.id) (Stays-trans a.id) u))))

  -- Through the gate, a change of another's row.
  changed-Stays :
      (g : Gate) (act : Act) (target : SharedId) (f : User → User)
      (q : Console → Result (Unit {0}) × Console)
      → text_eqb target a.id ≡ false
      → ((u : User) → (f u).id ≡ u.id)
      → ((t : Console) → (q t).1.users ≡ change_where (is_user target) f t.users)
      → Keeps R (do_act g (some a) act (statement q))
  changed-Stays g act target f q n h k =
      do_act-Keeps R (Stays-refl a.id) (Stays-trans a.id) audited told g (some a) act (statement q)
        (statement-Keeps R (Stays-refl a.id) (Stays-trans a.id) q moved)
    where
      audited :
          (s : Console) (g' : Gate) (b : User) (act' : Act)
          → R s (record_audit (entry_of g' b act') s).1
      audited s g' b act' before =
          subst (λ us. any (governs a.id) us ≡ true)
            (sym (record_audit-users (entry_of g' b act') s)) before

      told : (g' : Gate) (b : User) (act' : Act) → Keeps R (tell g' (entry_of g' b act'))
      told g' b act' = record {
        at = λ u before.
            subst (λ us. any (governs a.id) us ≡ true) (sym (tell-users g' (entry_of g' b act') u))
              before;
      }

      moved : (s : Console) → R s (q s).1
      moved s before =
          subst (λ us. any (governs a.id) us ≡ true) (sym (k s))
            (other-governs a.id target f s.users n h ∙ before)

  set_role-Stays :
      (g : Gate) (now : Time) (id : SharedId) (role : Role) (note : Text)
      → Keeps R (set_role g now (some a) id role note)
  unfolding set_role update_role
  set_role-Stays g now id role note =
      bind_after-Keeps R (Stays-refl a.id) (Stays-trans a.id) (for_person (some a) id note) _
        (for_person-Stays id note)
        (λ target u v e.
          let m = for_person-IsMeant (some a) id note u v target e in
          bind_after-Keeps R (Stays-refl a.id) (Stays-trans a.id)
            (lift (changed_to (change_role role now target))) _
            (lift-Keeps R (Stays-refl a.id) (Stays-trans a.id) _)
            (λ c u' v' e'.
              let same : c.id ≡ id =
                change_role-id role now target c (ap (λ x. x.0) e') ∙ m.found in
              changed-Stays g _ c.id
                (λ row. record row { role = c.role; updated_at = c.updated_at }) (update_role c)
                (subst (λ i. text_eqb i a.id ≡ false) (sym same) (not_self-other a id m.other))
                (λ x. refl) (λ t. refl)))

  set_person_active-Stays :
      (g : Gate) (now : Time) (id : SharedId) (on : Bool) (note : Text)
      → Keeps R (set_person_active g now (some a) id on note)
  unfolding set_person_active set_active
  set_person_active-Stays g now id on note =
      bind_after-Keeps R (Stays-refl a.id) (Stays-trans a.id) (for_person (some a) id note) _
        (for_person-Stays id note)
        (λ target u v e.
          let m = for_person-IsMeant (some a) id note u v target e in
          changed-Stays g _ target.id (λ row. record row { is_active = on; updated_at = now })
            (set_active (record target { is_active = on; updated_at = now }))
            (subst (λ i. text_eqb i a.id ≡ false) (sym m.found) (not_self-other a id m.other))
            (λ x. refl) (λ t. refl))

-- A person who is an active super_admin in the table before they change somebody's role or switch
-- somebody on or off is one after it, whatever they ask for and whatever statements fail.
pub governs-stays :
    (g : Gate) (now : Time) (a : User) (id : SharedId) (role : Role) (on : Bool) (note : Text)
    (u : Under Console)
    → IsGovernedBy a.id u.0
    → IsGovernedBy a.id (set_role g now (some a) id role note u).1.0
      × IsGovernedBy a.id (set_person_active g now (some a) id on note u).1.0
governs-stays g now a id role on note u h = (
  (set_role-Stays a g now id role note).at u h,
  (set_person_active-Stays a g now id on note).at u h,
)
