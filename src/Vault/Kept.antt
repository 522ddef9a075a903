-- ===== src/Vault/Kept.antt =====
-- The operations on credentials, and the defaults of the channels.
use srosha.Prelude.{
  refl, ap, inl, inr, Bool, true, false, not, ◌&&◌, ◌||◌, Bool-cases, Text, text_eqb, any,
  if◌then◌else◌,
}
use srosha.Errs.Result.{ok, changed_to, refuse_if}
use srosha.Effect.{Under, Effect, ◌>>◌, pure, lift, statement, query, atomically}
use srosha.Effect.Keeps.{
  Keeps, Still, bind-Keeps, bind-Still, lift-Still, query-Still, reads-Keeps, ends-Keeps,
  write-Keeps, if-Keeps, pure-Keeps, atomically-Keeps,
}
use srosha.Table.{change_where}
use srosha.Shared.Id.{SharedId, is_zero}
use srosha.Shared.Channel.{Channel}
use srosha.Delivery.{Time}
use srosha.Credential
use srosha.Credential.{Credential, make_default, deactivate, activate}
use srosha.Vault.{
  Row, Vault, Keyring, same_name, is_default_of, one_default, create, read_by_id, clear_default,
  as_unset, set_active, as_switched, differs, is_row, is_usable_row, as_set, set_default_row,
  rotate_secret, update_config,
}
use srosha.Vault.Methods.{
  sealed, add, replace, manage, get, valid_config, register, deactivate_one, activate_one,
  set_default, rotate, update,
}
use srosha.Vault.Defaults.{
  IsUsable, IsKept, IsTame, one_default-change, IsUsable-change, or_inv, and_inv, and_intro,
}

abbrev Keeping : Vault → Vault → Type 0
Keeping t t' = IsKept t → IsKept t'

same : (t : Vault) → Keeping t t
same t h = h

join : (s t u : Vault) → Keeping s t → Keeping t u → Keeping s u
join s t u f g h = g (f h)

-- A change of rows that makes no default and leaves every default usable.
tame-Keeping :
    (p : Row → Bool) (f : Row → Row) (t : Vault)
    → IsTame f
    → ((r : Row) → IsUsable r → IsUsable (f r))
    → IsKept t
    → IsKept (record t { rows = change_where p f t.rows })
tame-Keeping p f t h k kept = record {
  single = one_default-change p f t.rows h kept.single;
  usable = IsUsable-change p f t.rows (λ r m u. k r u) kept.usable;
}

clear_default-Keeping :
    (source_id : Text) (c : Channel) (now : Time) (t : Vault)
    → Keeping t (clear_default source_id c now t).1
unfolding clear_default
clear_default-Keeping source_id c now t =
    tame-Keeping (is_default_of source_id c) (as_unset now) t
      (record { source_id = λ r. refl; channel = λ r. refl; default = λ r d. refl })
      (λ r u. inl refl)

as_switched-IsTame : (active : Bool) (now : Time) → IsTame (as_switched active now)
as_switched-IsTame true now = record {
  source_id = λ r. refl;
  channel = λ r. refl;
  default = λ r d. d;
}
as_switched-IsTame false now = record {
  source_id = λ r. refl;
  channel = λ r. refl;
  default = λ r d. refl;
}

as_switched-IsUsable : (active : Bool) (now : Time) (r : Row) → IsUsable (as_switched active now r)
as_switched-IsUsable true now r = inr refl
as_switched-IsUsable false now r = inl refl

set_active-Keeping :
    (c : Credential) (active : Bool) (t : Vault) → Keeping t (set_active c active t).1
unfolding set_active
set_active-Keeping c active t =
    tame-Keeping (λ (r : Row). is_row c.id c.source_id r && differs r.cred.is_active active)
      (as_switched active c.updated_at) t (as_switched-IsTame active c.updated_at)
      (λ r u. as_switched-IsUsable active c.updated_at r)

rotate_secret-Keeping :
    (source_id : Text) (id : SharedId) (secret : Text) (now : Time) (t : Vault)
    → Keeping t (rotate_secret source_id id secret now t).1
unfolding rotate_secret
rotate_secret-Keeping source_id id secret now t =
    tame-Keeping _ _ t (record { source_id = λ r. refl; channel = λ r. refl; default = λ r d. d })
      (λ r u. u)

update_config-Keeping :
    (source_id : Text) (id : SharedId) (config : Text) (now : Time) (t : Vault)
    → Keeping t (update_config source_id id config now t).1
unfolding update_config
update_config-Keeping source_id id config now t =
    tame-Keeping _ _ t (record { source_id = λ r. refl; channel = λ r. refl; default = λ r d. d })
      (λ r u. u)

set_default_row-Keeping : (c : Credential) (t : Vault) → Keeping t (set_default_row c t).1
unfolding set_default_row
set_default_row-Keeping c t kept =
    elim (Bool-cases (one_default (change_where (is_usable_row c) (as_set c.updated_at) t.rows))) [
      | inl single ↦ rw single (record {
        single = single;
        usable =
            IsUsable-change (is_usable_row c) (as_set c.updated_at) t.rows
              (λ r m u. inr (and_inv (is_row c.id c.source_id r) _ m).1) kept.usable;
      })
      | inr double ↦ rw double kept
    ]

create-Keeping :
    (c : Credential) (config secret : Text) (t : Vault) → Keeping t (create c config secret t).1
unfolding create one_default
create-Keeping c config secret t kept =
    let names = any (same_name c) t.rows in
    let second = c.is_default && any (is_default_of c.source_id c.channel) t.rows in
    let ids = any (λ (r : Row). text_eqb r.cred.id c.id) t.rows in
    elim (Bool-cases (names || second || ids)) [
      | inl taken ↦ rw taken kept
      | inr free ↦ rw free (
          let none_second = (or_inv names second (or_inv (names || second) ids free).0).1 in
          record {
            single = and_intro (ap not none_second) kept.single;
            usable = (inr refl, kept.usable);
          })
    ]

get-Still : (source_id : Text) (id : SharedId) → Still (get source_id id)
unfolding get manage read_by_id
get-Still source_id id =
    bind-Still (query _) _ (query-Still _)
      (λ s. bind-Still (lift (refuse_if (is_zero id) _)) _ (lift-Still _) (λ _. query-Still _))

add-Keeping :
    (keys : Keyring) (c : Credential) (config secret : Text)
    → Keeps Keeping (add keys c config secret)
unfolding add
add-Keeping keys c config secret =
    reads-Keeps (lift (sealed keys c secret)) _ same (lift-Still _)
      (λ value. write-Keeps (create c config value) same (create-Keeping c config value))

-- The transaction of `Register`.
abbrev stored :
    Keyring → Bool → Time → Text → Text → Text → Channel → Credential → Effect Vault (Unit {0})
stored keys on now source_id config secret c x = atomically (
    (if on then statement (clear_default source_id c now) else pure tt) >> add keys x config secret)

stored-Keeping :
    (keys : Keyring) (on : Bool) (now : Time) (source_id config secret : Text) (c : Channel)
    (x : Credential)
    → Keeps Keeping (stored keys on now source_id config secret c x)
stored-Keeping keys on now source_id config secret c x = atomically-Keeps Keeping same join _ (
    bind-Keeps Keeping same join (if on then statement (clear_default source_id c now) else pure tt)
      (λ _. add keys x config secret)
      (if-Keeps on _ _ (write-Keeps _ same (clear_default-Keeping source_id c now))
        (pure-Keeps Keeping same join tt))
      (λ _. add-Keeping keys x config secret))

-- Every operation on the credentials of a source, whatever it is asked and whatever statements fail,
-- leaves at most one default for each channel of each source, and every default switched on, if that
-- was so before.
pub operations-IsKept :
    (keys : Keyring) (is_json on : Bool) (id : SharedId) (now now' : Time)
    (source_id name config secret : Text) (c : Channel) (u : Under Vault)
    → IsKept u.0
    → IsKept (register keys is_json id now source_id c name config secret on u).1.0
      × IsKept (deactivate_one now source_id id u).1.0
      × IsKept (activate_one now source_id id u).1.0
      × IsKept (set_default now now' source_id id u).1.0
      × IsKept (rotate keys now source_id id secret u).1.0
      × IsKept (update is_json now source_id id config u).1.0
unfolding register manage deactivate_one activate_one set_default rotate replace update
operations-IsKept keys is_json on id now now' source_id name config secret c u kept = (
  registered.at u kept,
  (reads-Keeps {P = Keeping} (get source_id id) _ same (get-Still source_id id) (λ x.
        ends-Keeps (statement (set_active (deactivate now x) false)) _
          (write-Keeps _ same (set_active-Keeping (deactivate now x) false))
          (λ _. lift-Still (ok (deactivate now x))))).at
      u kept,
  (reads-Keeps {P = Keeping} (get source_id id) _ same (get-Still source_id id) (λ x.
        ends-Keeps (statement (set_active (activate now x) true)) _
          (write-Keeps _ same (set_active-Keeping (activate now x) true))
          (λ _. lift-Still (ok (activate now x))))).at
      u kept,
  moved.at u kept,
  (reads-Keeps {P = Keeping} (get source_id id) _ same (get-Still source_id id) (λ x.
        ends-Keeps (replace keys now x secret) _
          (reads-Keeps (lift (sealed keys x secret)) _ same (lift-Still _) (λ value.
            write-Keeps (rotate_secret x.source_id x.id value now) same
              (rotate_secret-Keeping x.source_id x.id value now)))
          (λ _. lift-Still (ok x)))).at
      u kept,
  (reads-Keeps {P = Keeping} (get source_id id) _ same (get-Still source_id id) (λ x.
        reads-Keeps (lift (valid_config is_json config)) _ same (lift-Still _) (λ _.
          ends-Keeps (statement (update_config source_id id config now)) _
            (write-Keeps _ same (update_config-Keeping source_id id config now))
            (λ _. lift-Still (ok x))))).at
      u kept,
)
  where
    registered : Keeps Keeping (register keys is_json id now source_id c name config secret on)
    registered = reads-Keeps (manage source_id) _ same (query-Still _) (λ _.
        reads-Keeps (lift (valid_config is_json config)) _ same (lift-Still _) (λ _.
          reads-Keeps (lift (Credential.new id source_id c name on now)) _ same (lift-Still _) (λ x.
            ends-Keeps (stored keys on now source_id config secret c x) _
              (stored-Keeping keys on now source_id config secret c x) (λ _. lift-Still (ok x)))))

    moved : Keeps Keeping (set_default now now' source_id id)
    moved = reads-Keeps (get source_id id) _ same (get-Still source_id id) (λ x.
        atomically-Keeps Keeping same join _ (
          bind-Keeps Keeping same join (statement (clear_default source_id x.channel now)) _
            (write-Keeps _ same (clear_default-Keeping source_id x.channel now))
            (λ _.
              reads-Keeps (lift (changed_to (make_default now' x))) _ same (lift-Still _) (λ made.
                ends-Keeps (statement (set_default_row made)) _
                  (write-Keeps _ same (set_default_row-Keeping made))
                  (λ _. lift-Still (ok made))))))
