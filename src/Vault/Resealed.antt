-- ===== src/Vault/Resealed.antt =====
-- A secret that is read and written back under a newer key.
use srosha.Prelude.{
  ◌≡◌, ◌⊎◌, inl, inr, refl, ap, sym, subst, ◌∙◌, Bool, true, false, Option, none, some, [], ◌∷◌,
  Text, is_empty, arith, Bool-cases, if◌then◌else◌, some_injective,
}
use srosha.Errs.{detailed, not_found, credential_not_found}
use srosha.Errs.Result.{Result, ok}
use srosha.Effect.{Under, Effect, ◌>>=◌, lift, statement, attempt, pure}
use srosha.Effect.Keeps.{
  Keeps, write-Keeps, if-Keeps, bind_after-Keeps, bind-Keeps, pure-Keeps, lift-Keeps, attempt-Keeps,
}
use srosha.Effect.Inversion.{lift-Answers, lift-then, run-then, query-then}
use srosha.Table.{find_where, change_where, or_missing, found_inv}
use srosha.Table.Found.{changed_row, find_where-change_where}
use srosha.Shared.Id.{SharedId}
use srosha.Shared.Channel.{Channel}
use srosha.Delivery.{Time}
use srosha.Crypto.Interface.{IsKeyring}
use srosha.Vault.{
  Row, Vault, Keyring, optional, deref, is_active_row, material_of, read_material, is_resealed_row,
  as_resealed, reseal_row,
}
use srosha.Vault.Methods.{bind, reseal, open_material, material}

pub deref-optional : (t : Text) → deref (optional t) ≡ t
deref-optional [] = refl
deref-optional (c ∷ t) = refl

changed_material :
    (q : Row → Bool) (next : Text) (now : Time) (o : Option Row) (config value : Text)
    → material_of o ≡ some (config, value)
    → (material_of (changed_row q (as_resealed next now) o) ≡ some (config, value))
      ⊎ (material_of (changed_row q (as_resealed next now) o) ≡ some (config, next))
changed_material q next now none config value h = cc
changed_material q next now (some r) config value h = by_test (q r)
  where
    by_test :
        (b : Bool)
        → (material_of (some (if b then as_resealed next now r else r)) ≡ some (config, value))
          ⊎ (material_of (some (if b then as_resealed next now r else r)) ≡ some (config, next))
    by_test false = inl h
    by_test true =
        let e = some_injective (r.config, deref r.secret) (config, value) h in
        inr (
          ap some (
            ap (λ (x : Text × Text). (x.0, deref (optional next))) e
            ∙ ap (λ (v : Text). (config, v)) (deref-optional next)))

module _ (keys : Keyring) (sound : IsKeyring keys) (id : SharedId) (aad config plain : Text) where
  -- The value that is stored opens to the secret.
  record Opens (t : Vault) : Type 0 where
    value : Text
    stored : read_material id t ≡ ok (config, value)
    filled : is_empty value ≡ false
    opens : keys.open_sealed value aad ≡ ok plain

  reseal_row-Opens :
      (previous next : Text) (now : Time) (t : Vault)
      → keys.seal plain aad ≡ ok next
      → Opens t
      → Opens (reseal_row id previous next now t).1
  unfolding read_material reseal_row
  reseal_row-Opens previous next now t made o =
      elim (changed_material (is_resealed_row id previous) next now
        (find_where (is_active_row id) t.rows) config o.value
        (found_inv (material_of (find_where (is_active_row id) t.rows))
          (detailed not_found credential_not_found) (config, o.value) o.stored)) [
            | inl e ↦ record {
              value = o.value;
              stored =
                  ap
                    (λ (m : Option (Text × Text)).
                      or_missing m (detailed not_found credential_not_found))
                    (ap material_of moved ∙ e);
              filled = o.filled;
              opens = o.opens;
            }
            | inr e ↦ record {
              value = next;
              stored =
                  ap
                    (λ (m : Option (Text × Text)).
                      or_missing m (detailed not_found credential_not_found))
                    (ap material_of moved ∙ e);
              filled = sound.filled plain aad next made;
              opens = sound.reopens plain aad next made;
            }
          ]
    where
      moved :
          find_where
            (is_active_row id)
            (change_where (is_resealed_row id previous) (as_resealed next now) t.rows)
          ≡ changed_row
              (is_resealed_row id previous)
              (as_resealed next now)
              (find_where (is_active_row id) t.rows)
      moved =
          find_where-change_where (is_active_row id) (is_resealed_row id previous)
            (as_resealed next now) t.rows (λ a. refl)

  abbrev Opening : Vault → Vault → Type 0
  Opening t u = Opens t → Opens u

  same : (t : Vault) → Opening t t
  same t o = o

  join : (s t u : Vault) → Opening s t → Opening t u → Opening s u
  join s t u f g o = g (f o)

  reseal-Keeps : (now : Time) (value : Text) → Keeps Opening (reseal keys now id value plain aad)
  unfolding reseal
  reseal-Keeps now value =
      if-Keeps (keys.needs_reseal value) _ (pure tt)
        (bind_after-Keeps Opening same join (lift (keys.seal plain aad)) _
          (lift-Keeps Opening same join (keys.seal plain aad))
          (λ next u v made.
            bind-Keeps Opening same join (statement (reseal_row id value next now)) _
              (write-Keeps (reseal_row id value next now) same (λ t.
                reseal_row-Opens value next now t
                  (lift-Answers (keys.seal plain aad) u v next made).0))
              (λ written. pure-Keeps Opening same join tt)))
        (pure-Keeps Opening same join tt)

-- What a run answers, its tables aside.
abbrev answer_of : {A : Type 0} → Result A × Under Vault → Result A
answer_of o = o.0

module _ (keys : Keyring) (sound : IsKeyring keys) (source_id : Text) (c : Channel)
    (id : SharedId) where
  open_material-Opens :
      (config plain value : Text) (now : Time) (u : Under Vault)
      → is_empty value ≡ false
      → keys.open_sealed value (bind source_id c id) ≡ ok plain
      → answer_of (open_material keys now source_id c id (config, value) u) ≡ ok (config, plain)
  unfolding open_material
  open_material-Opens config plain value now u filled opens =
      ap
        (λ (b : Bool). answer_of (
          (if b then pure (config, []) else opened (keys.open_sealed value (bind source_id c id)))
            u))
        filled
      ∙ ap (λ (r : Result Text). answer_of (opened r u)) opens
    where
      opened : Result Text → Effect Vault (Text × Text)
      opened r = lift r >>= (λ (p : Text).
          attempt (reseal keys now id value p (bind source_id c id)) >>= (λ x. pure (config, p)))

  material-Opens :
      (config plain : Text) (now : Time) (t : Vault)
      → Opens keys sound id (bind source_id c id) config plain t
      → answer_of (material keys now source_id c id (t, [])) ≡ ok (config, plain)
  unfolding material
  material-Opens config plain now t o =
      ap
        (λ (r : Result (Text × Text)).
          answer_of ((lift r >>= open_material keys now source_id c id) (t, [])))
        o.stored
      ∙ open_material-Opens config plain o.value now (t, []) o.filled o.opens

  -- An empty value is no secret.
  open_material_empty :
      (config value : Text) (now : Time) (u : Under Vault)
      → is_empty value ≡ true
      → open_material keys now source_id c id (config, value) u ≡ (ok (config, []), u)
  unfolding open_material
  open_material_empty config value now u empty = ground (arith, empty)

  open_material_filled :
      (config value : Text) (now : Time) (u : Under Vault)
      → is_empty value ≡ false
      → open_material keys now source_id c id (config, value) u
        ≡ (lift (keys.open_sealed value (bind source_id c id)) >>= (λ (p : Text).
              attempt (reseal keys now id value p (bind source_id c id))
              >>= (λ x. pure (config, p))))
            u
  unfolding open_material
  open_material_filled config value now u filled =
      ap
        (λ (b : Bool).
          (if b
              then pure (config, [])
              else (lift (keys.open_sealed value (bind source_id c id)) >>= (λ (p : Text).
                  attempt (reseal keys now id value p (bind source_id c id))
                  >>= (λ x. pure (config, p)))))
            u)
        filled

  after_read :
      (now later : Time) (answer : Text × Text) (u t : Under Vault) (pair : Text × Text)
      → read_material id u.0 ≡ ok pair
      → open_material keys now source_id c id pair u ≡ (ok answer, t)
      → answer_of (material keys later source_id c id (t.0, [])) ≡ ok answer
  unfolding material
  after_read now later answer u t (config, value) stored h = elim (Bool-cases (is_empty value)) [
    | inl empty ↦
        let e = sym (open_material_empty config value now u empty) ∙ h in
        ap
          (λ (o : Result (Text × Text) × Under Vault).
            answer_of (material keys later source_id c id (o.1.0, [])))
          (sym e)
        ∙ ap
            (λ (r : Result (Text × Text)).
              answer_of ((lift r >>= open_material keys later source_id c id) (u.0, [])))
            stored
        ∙ ap answer_of (open_material_empty config value later (u.0, []) empty)
        ∙ ap answer_of e
    | inr filled ↦
        lift-then {P = Goal} u t answer (keys.open_sealed value (bind source_id c id)) _
          (sym (open_material_filled config value now u filled) ∙ h)
          (λ p opens h1.
            run-then {P = Goal} u t answer
              (attempt (reseal keys now id value p (bind source_id c id))) (λ x. pure (config, p))
              h1
              (λ x v e h2.
                material-Opens config p later t.0 (
                  subst (Opens keys sound id (bind source_id c id) config p)
                    (ap (λ (o : Result (Unit {0}) × Under Vault). o.1.0) e
                      ∙ ap (λ (o : Result (Text × Text) × Under Vault). o.1.0) h2)
                    ((attempt-Keeps (Opening keys sound id (bind source_id c id) config p)
                        (same keys sound id (bind source_id c id) config p)
                        (join keys sound id (bind source_id c id) config p)
                        (reseal keys now id value p (bind source_id c id))
                        (reseal-Keeps keys sound id (bind source_id c id) config p now value)).at
                      u
                      (record { value = value; stored = stored; filled = filled; opens = opens })))
                ∙ ap answer_of h2))
  ]
    where
      Goal : Type 0
      Goal = answer_of (material keys later source_id c id (t.0, [])) ≡ ok answer

  -- A secret that was read can be read again, under whichever key it then is: what `material`
  -- writes back, however its statements fail, opens to the same secret.
  pub material_again :
      (now later : Time) (config plain : Text) (s t : Under Vault)
      → material keys now source_id c id s ≡ (ok (config, plain), t)
      → (material keys later source_id c id (t.0, [])).0 ≡ ok (config, plain)
  unfolding material
  material_again now later config plain s t h =
      query-then {P = answer_of (material keys later source_id c id (t.0, [])) ≡ ok (config, plain)}
        s t (config, plain) (read_material id) _ h
        (λ pair u stored same h1.
          after_read now later (config, plain) u t pair (ap (read_material id) (sym same) ∙ stored)
            h1)
