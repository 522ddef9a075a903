-- ===== src/Registrar/Again.antt =====
-- Registering a callback again, and rotating its secret.
use srosha.Prelude.{
  some_injective, ◌≡◌, refl, ap, sym, subst, ◌∙◌, Bool, true, false, Option, none, some, [], Text,
  if◌then◌else◌,
}
use srosha.Errs.{refused, not_found, webhook_not_found}
use srosha.Errs.Result.{Result, ok, changed_to, ok_injective}
use srosha.Effect.{Under}
use srosha.Effect.Inversion.{lift-Answers, lift-then, run-then, query-then, statement-then}
use srosha.Table.{find_where, or_missing, found_inv}
use srosha.Table.Found.{changed_row, find_where-change_where}
use srosha.Shared.Id.{SharedId}
use srosha.Delivery.{Time}
use srosha.Webhook.{Webhook, Net, UrlPolicy, redirect}
use srosha.Vault.{Keyring}
use srosha.Crypto.Interface.{IsKeyring}
use srosha.Registrar.{
  HookRow, Hooks, of_source, has_id, registered, hook_of, read_hook, as_redirected, redirect_row,
  kept_secret, read_secret, issue, opened_secret, secret_for, register_hook, first_secret, register,
  get_hook, owner, rotate_secret, manage,
}
use srosha.Registrar.Issued.{register_inv, issue-secret_for}

same_secret :
    (b : Bool) (w : Webhook) (r : HookRow)
    → kept_secret (some (if b then as_redirected w r else r)) ≡ kept_secret (some r)
same_secret true w r = refl
same_secret false w r = refl

redirected_secret :
    (w : Webhook) (o : Option HookRow)
    → kept_secret (changed_row (has_id w.id) (as_redirected w) o) ≡ kept_secret o
redirected_secret w none = refl
redirected_secret w (some r) = same_secret (has_id w.id r) w r

read_secret-redirect_row :
    (source_id : Text) (w : Webhook) (t : Hooks)
    → read_secret source_id (redirect_row w t).1 ≡ read_secret source_id t
unfolding read_secret redirect_row
read_secret-redirect_row source_id w t =
    ap kept_secret (
      find_where-change_where (of_source source_id) (has_id w.id) (as_redirected w) t.rows
        (λ a. refl))
    ∙ redirected_secret w (find_where (of_source source_id) t.rows)

read_secret-register_hook :
    (net : Net) (policy : UrlPolicy) (id : SharedId) (now : Time) (source_id url : Text)
    (s t : Under Hooks) (old w : Webhook)
    → read_hook source_id s.0 ≡ ok (some old)
    → register_hook net policy id now source_id url s ≡ (ok w, t)
    → read_secret source_id t.0 ≡ read_secret source_id s.0
unfolding register_hook
read_secret-register_hook net policy id now source_id url s t old w had h =
    query-then {P = Goal} s t w (read_hook source_id) _ h (λ existing u is same h1.
      go existing u (ok_injective existing (some old) (sym is ∙ had)) same h1)
  where
    Goal : Type 0
    Goal = read_secret source_id t.0 ≡ read_secret source_id s.0

    go :
        (existing : Option Webhook) (u : Under Hooks)
        → existing ≡ some old
        → s.0 ≡ u.0
        → registered net policy id now source_id url existing u ≡ (ok w, t)
        → Goal
    go none u e same h1 = cc
    go (some x) u e same h1 =
        lift-then {P = Goal} u t w (changed_to (redirect net url policy now x)) _ h1 (λ moved is h2.
          statement-then {P = Goal} u t w (redirect_row moved) _ h2 (λ done v written h3.
            sym (
              ap (λ (o : Result (Unit {0}) × Hooks). read_secret source_id o.1) written
              ∙ ap (λ (o : Result Webhook × Under Hooks). read_secret source_id o.1.0) h3)
            ∙ read_secret-redirect_row source_id moved u.0
            ∙ ap (read_secret source_id) (sym same)))

hook_of_inv :
    (o : Option HookRow) (w : Webhook)
    → hook_of o ≡ some w
    → (r : HookRow) × (o ≡ some r) × (r.hook ≡ w)
hook_of_inv none w h = cc
hook_of_inv (some r) w h = (r, refl, some_injective r.hook w h)

-- What `get_hook` hands out is the callback of the row that is found.
get_hook-Found :
    (source_id : Text) (s t : Under Hooks) (w : Webhook)
    → get_hook source_id s ≡ (ok w, t)
    → (r : HookRow) × (find_where (of_source source_id) t.0.rows ≡ some r) × (r.hook ≡ w)
unfolding get_hook manage read_hook
get_hook-Found source_id s t w h =
    query-then {P = Goal} s t w (owner source_id) _ h (λ o u e0 same h1.
      query-then {P = Goal} u t w (read_hook source_id) _ h1 (λ existing v is same' h2.
        let (got, ends) =
          lift-Answers (or_missing existing (refused not_found webhook_not_found)) v t w h2 in
        hook_of_inv (find_where (of_source source_id) t.0.rows) w (
          ap (λ (x : Hooks). hook_of (find_where (of_source source_id) x.rows))
            (sym (same' ∙ ap (λ (x : Under Hooks). x.0) ends))
          ∙ ok_injective (hook_of (find_where (of_source source_id) u.0.rows)) existing is
          ∙ found_inv existing (refused not_found webhook_not_found) w got)))
  where
    Goal : Type 0
    Goal = (r : HookRow) × (find_where (of_source source_id) t.0.rows ≡ some r) × (r.hook ≡ w)

module _ (keys : Keyring) where
  -- Registering again hands out no secret, and leaves the one that there is.
  pub register_again :
      (net : Net) (policy : UrlPolicy) (drawn : Result Text) (id : SharedId) (now : Time)
      (source_id url : Text) (s t : Under Hooks) (old w : Webhook) (secret : Text)
      → read_hook source_id s.0 ≡ ok (some old)
      → register keys net policy drawn id now source_id url s ≡ (ok (w, secret), t)
      → (secret ≡ []) × (secret_for keys source_id t.0 ≡ secret_for keys source_id s.0)
  unfolding first_secret secret_for
  register_again net policy drawn id now source_id url s t old w secret had h =
      let (made, v, x, same, registration, h3) =
        register_inv keys net policy drawn id now source_id url s t (some old) w secret had h in
      (
        sym (
            ap (λ (o : Webhook × Text). o.1)
              (ok_injective (made, []) (w, secret)
                (ap (λ (o : Result (Webhook × Text) × Under Hooks). o.0) h3))),
        sym (ap (λ (o : Result (Webhook × Text) × Under Hooks). secret_for keys source_id o.1.0) h3)
            ∙ ap (opened_secret keys source_id) (
                read_secret-register_hook net policy id now source_id url v x old made
                  (ap (read_hook source_id) same ∙ had) registration)
            ∙ ap (secret_for keys source_id) same,
      )

  -- A rotation hands out the secret that is used from then on.
  pub rotate_secret-secret_for :
      IsKeyring keys
      → (drawn : Result Text) (now : Time) (source_id : Text) (s t : Under Hooks) (secret : Text)
      → rotate_secret keys drawn now source_id s ≡ (ok secret, t)
      → secret_for keys source_id t.0 ≡ some secret
  unfolding rotate_secret
  rotate_secret-secret_for sound drawn now source_id s t secret h =
      run-then {P = secret_for keys source_id t.0 ≡ some secret} s t secret (get_hook source_id) _ h
        (λ w u got h1.
          let (r, found, e) = get_hook-Found source_id s u w got in
          issue-secret_for keys sound drawn now source_id r u t secret found (
            subst (λ (x : Webhook). issue keys drawn now source_id x.id u ≡ (ok secret, t)) (sym e)
              h1))
