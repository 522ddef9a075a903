-- ===== src/Registrar/Issued.antt =====
-- The secret that a registration hands out is the one that callbacks are signed with.
use srosha.Prelude.{
  ◌==◌, ◌≡◌, refl, ap, sym, subst, ◌∙◌, Bool, true, false, ◌||◌, Option, none, some, List, ◌∷◌,
  Text, text_eqb_iff, any, is_empty, arith, if◌then◌else◌,
}
use srosha.Errs.{Error, app, str, duplicate_entry, refused, internal, invalid_id, missing_source}
use srosha.Errs.Result.{Result, ok, err, then_inv, refuse_if, ok_injective}
use srosha.Effect.{Under}
use srosha.Effect.Inversion.{lift-then, run-then, query-then, statement-then}
use srosha.Table.{find_where}
use srosha.Table.Found.{changed_row, find_where-change_where, find_where_inv}
use srosha.Shared.Id.{SharedId, is_zero}
use srosha.Delivery.{Time}
use srosha.Webhook
use srosha.Webhook.{Webhook, Net, UrlPolicy, redirect, validate_url}
use srosha.Vault.{Keyring}
use srosha.Crypto.Interface.{IsKeyring}
use srosha.Vault.Resealed.{deref-optional}
use srosha.Registrar.{
  HookRow, Hooks, of_source, has_id, create_hook, new_row, registered, read_hook, is_hook,
  with_secret, write_secret, kept_secret, read_secret, bind_webhook, new_signing_secret, stored,
  issue, opened_secret, secret_for, register_hook, first_secret, register, owner, manage,
}

stored_inv : (r : Result Text) (value : Text) → stored r ≡ ok value → r ≡ ok value
stored_inv (ok v) value h = h
stored_inv (err e) value h = cc

is_hook_self :
    (source_id : Text) (r : HookRow)
    → of_source source_id r ≡ true
    → is_hook source_id r.hook.id r ≡ true
is_hook_self source_id r h = ground (arith, h, text_eqb_iff r.hook.id r.hook.id)

-- The value that was written is the one that is read.
read_secret-write_secret :
    (source_id value : Text) (now : Time) (t : Hooks) (r : HookRow)
    → find_where (of_source source_id) t.rows ≡ some r
    → read_secret source_id (write_secret source_id r.hook.id value now t).1 ≡ (r.hook.id, value)
unfolding read_secret write_secret
read_secret-write_secret source_id value now t r h =
    ap kept_secret (
      find_where-change_where (of_source source_id) (is_hook source_id r.hook.id)
        (with_secret value now) t.rows (λ a. refl)
      ∙ ap (changed_row (is_hook source_id r.hook.id) (with_secret value now)) h)
    ∙ ap (λ (b : Bool). kept_secret (some (if b then with_secret value now r else r)))
        (is_hook_self source_id r (find_where_inv (of_source source_id) t.rows r h))
    ∙ ap (λ (v : Text). (r.hook.id, v)) (deref-optional value)

module _ (keys : Keyring) (sound : IsKeyring keys) where
  opened_secret-sealed :
      (source_id plain value : Text) (id : SharedId)
      → keys.seal plain (bind_webhook source_id id) ≡ ok value
      → opened_secret keys source_id (id, value) ≡ some plain
  unfolding opened_secret
  opened_secret-sealed source_id plain value id h = ground (
    arith,
    sound.reopens plain (bind_webhook source_id id) value h,
    sound.filled plain (bind_webhook source_id id) value h,
  )

  -- What is issued is what is found from then on.
  pub issue-secret_for :
      (drawn : Result Text) (now : Time) (source_id : Text) (r : HookRow) (s t : Under Hooks)
      (secret : Text)
      → find_where (of_source source_id) s.0.rows ≡ some r
      → issue keys drawn now source_id r.hook.id s ≡ (ok secret, t)
      → secret_for keys source_id t.0 ≡ some secret
  unfolding issue secret_for
  issue-secret_for drawn now source_id r s t secret found h =
      lift-then {P = Goal} s t secret (new_signing_secret drawn) _ h (λ plain made h1.
        lift-then {P = Goal} s t secret
          (stored (keys.seal plain (bind_webhook source_id r.hook.id))) _ h1
          (λ value sealed h2.
            statement-then {P = Goal} s t secret (write_secret source_id r.hook.id value now) _ h2
              (λ done u written h3.
                sym (
                  ap (λ (o : Result (Unit {0}) × Hooks). secret_for keys source_id o.1) written
                  ∙ ap (λ (o : Result Text × Under Hooks). secret_for keys source_id o.1.0) h3)
                ∙ ap (opened_secret keys source_id)
                    (read_secret-write_secret source_id value now s.0 r found)
                ∙ opened_secret-sealed source_id plain value r.hook.id
                    (stored_inv (keys.seal plain (bind_webhook source_id r.hook.id)) value sealed)
                ∙ ap some
                    (ok_injective plain secret (ap (λ (o : Result Text × Under Hooks). o.0) h3)))))
    where
      Goal : Type 0
      Goal = secret_for keys source_id t.0 ≡ some secret

new-source_id :
    (net : Net) (id : SharedId) (source_id url : Text) (policy : UrlPolicy) (now : Time)
    (w : Webhook)
    → Webhook.new net id source_id url policy now ≡ ok w
    → w.source_id ≡ source_id
unfolding Webhook.new
new-source_id net id source_id url policy now w h =
    let (a, h1) = then_inv (refuse_if (is_zero id) (refused internal invalid_id)) _ h in
    let (b, h2) =
      then_inv (refuse_if (is_empty source_id) (refused internal missing_source)) _ h1 in
    let (c, h3) = then_inv (refuse_if (now == 0) (refused internal invalid_id)) _ h2 in
    let (d, h4) = then_inv (validate_url net url policy) _ h3 in
    sym (ap (λ (x : Webhook). x.source_id) (ok_injective _ w h4))

-- A write that a refusal guards.
unguarded :
    (c : Bool) (e : Error) (s made t : Hooks)
    → ◌≡◌ {A = Result (Unit {0}) × Hooks} (if c then (err e, s) else (ok tt, made)) (ok tt, t)
    → made ≡ t
unguarded true e s made t h = cc
unguarded false e s made t h = ap (λ (o : Result (Unit {0}) × Hooks). o.1) h

found_first :
    (source_id : Text) (r : HookRow) (rows : List HookRow)
    → r.hook.source_id ≡ source_id
    → find_where (of_source source_id) (r ∷ rows) ≡ some r
unfolding find_where
found_first source_id r rows h = ground (arith, h, text_eqb_iff source_id source_id)

-- The row that `create_hook` made is the one of its source.
create_hook-Found :
    (w : Webhook) (source_id : Text) (s t : Hooks)
    → w.source_id ≡ source_id
    → create_hook w s ≡ (ok tt, t)
    → (r : HookRow) × (find_where (of_source source_id) t.rows ≡ some r) × (r.hook.id ≡ w.id)
unfolding create_hook
create_hook-Found w source_id s t same h = (
  new_row w,
  subst (λ (x : Hooks). find_where (of_source source_id) x.rows ≡ some (new_row w))
      (unguarded (any (of_source w.source_id) s.rows || any (has_id w.id) s.rows)
        (app duplicate_entry str) s _ t h)
      (found_first source_id (new_row w) s.rows same),
  refl,
)

register_hook-Found :
    (net : Net) (policy : UrlPolicy) (id : SharedId) (now : Time) (source_id url : Text)
    (s t : Under Hooks) (w : Webhook)
    → read_hook source_id s.0 ≡ ok none
    → register_hook net policy id now source_id url s ≡ (ok w, t)
    → (r : HookRow) × (find_where (of_source source_id) t.0.rows ≡ some r) × (r.hook.id ≡ w.id)
unfolding register_hook
register_hook-Found net policy id now source_id url s t w fresh h =
    query-then {P = Goal} s t w (read_hook source_id) _ h
      (λ existing u is same h1. go existing u (ok_injective existing none (sym is ∙ fresh)) h1)
  where
    Goal : Type 0
    Goal = (r : HookRow) × (find_where (of_source source_id) t.0.rows ≡ some r) × (r.hook.id ≡ w.id)

    go :
        (existing : Option Webhook) (u : Under Hooks)
        → existing ≡ none
        → registered net policy id now source_id url existing u ≡ (ok w, t)
        → Goal
    go (some x) u e h1 = cc
    go none u e h1 =
        lift-then {P = Goal} u t w (Webhook.new net id source_id url policy now) _ h1
          (λ made ok_made h2.
            statement-then {P = Goal} u t w (create_hook made) _ h2 (λ done v created h3.
              let (r, f, i) =
                create_hook-Found made source_id u.0 v.0
                  (new-source_id net id source_id url policy now made ok_made) created in
              (
                r,
                subst (λ (x : Hooks). find_where (of_source source_id) x.rows ≡ some r)
                    (ap (λ (o : Result Webhook × Under Hooks). o.1.0) h3) f,
                i
                    ∙ ap (λ (x : Webhook). x.id)
                        (ok_injective made w (ap (λ (o : Result Webhook × Under Hooks). o.0) h3)),
              )))

module _ (keys : Keyring) where
  -- The steps of `register` behind the check of the source.
  pub register_inv :
      (net : Net) (policy : UrlPolicy) (drawn : Result Text) (id : SharedId) (now : Time)
      (source_id url : Text) (s t : Under Hooks) (existing : Option Webhook) (w : Webhook)
      (secret : Text)
      → read_hook source_id s.0 ≡ ok existing
      → register keys net policy drawn id now source_id url s ≡ (ok (w, secret), t)
      → (made : Webhook) × (v : Under Hooks) × (x : Under Hooks) × (v.0 ≡ s.0)
        × (register_hook net policy id now source_id url v ≡ (ok made, x))
        × (first_secret keys drawn now source_id existing made x ≡ (ok (w, secret), t))
  unfolding register manage
  register_inv net policy drawn id now source_id url s t existing w secret read h =
      query-then {P = Goal} s t (w, secret) (owner source_id) _ h
        (λ owner u e0 same h1.
          query-then {P = Goal} u t (w, secret) (read_hook source_id) _ h1
            (λ found v is same' h2.
              run-then {P = Goal} v t (w, secret) (register_hook net policy id now source_id url) _
                h2
                (λ made x registration h3. (
                  made,
                  v,
                  x,
                  sym (same ∙ same'),
                  registration,
                  subst
                      (λ (o : Option Webhook).
                        first_secret keys drawn now source_id o made x ≡ (ok (w, secret), t))
                      (ok_injective found existing
                        (sym is ∙ ap (read_hook source_id) (sym same) ∙ read))
                      h3,
                ))))
    where
      Goal : Type 0
      Goal =
          (made : Webhook) × (v : Under Hooks) × (x : Under Hooks) × (v.0 ≡ s.0)
          × (register_hook net policy id now source_id url v ≡ (ok made, x))
          × (first_secret keys drawn now source_id existing made x ≡ (ok (w, secret), t))

module _ (keys : Keyring) (sound : IsKeyring keys) where
  -- The secret that a first registration hands out is the one that the source's callbacks are
  -- signed with from then on.
  pub register-secret_for :
      (net : Net) (policy : UrlPolicy) (drawn : Result Text) (id : SharedId) (now : Time)
      (source_id url : Text) (s t : Under Hooks) (w : Webhook) (secret : Text)
      → read_hook source_id s.0 ≡ ok none
      → register keys net policy drawn id now source_id url s ≡ (ok (w, secret), t)
      → secret_for keys source_id t.0 ≡ some secret
  unfolding first_secret
  register-secret_for net policy drawn id now source_id url s t w secret fresh h =
      let (made, v, x, same, registration, h3) =
        register_inv keys net policy drawn id now source_id url s t none w secret fresh h in
      let (r, found, i) =
        register_hook-Found net policy id now source_id url v x made
          (ap (read_hook source_id) same ∙ fresh) registration in
      run-then {P = secret_for keys source_id t.0 ≡ some secret} x t (w, secret)
        (issue keys drawn now source_id made.id) _ h3
        (λ issued y e h4.
          sym
            (ap (λ (o : Result (Webhook × Text) × Under Hooks). secret_for keys source_id o.1.0) h4)
          ∙ issue-secret_for keys sound drawn now source_id r x y issued found
              (subst (λ k. issue keys drawn now source_id k x ≡ (ok issued, y)) (sym i) e)
          ∙ ap some (
              ap (λ (o : Webhook × Text). o.1)
                (ok_injective (made, issued) (w, secret)
                  (ap (λ (o : Result (Webhook × Text) × Under Hooks). o.0) h4))))
