-- ===== src/Console/Keys/Caller.antt =====
-- Who calls with a key.
use srosha.Prelude.{
  ◌≡◌, refl, ap, sym, subst, ◌∙◌, ◌⊎◌, inl, inr, true, Bool-cases, ◌&&◌, Option, none, some, [],
  Text, text_eqb, is_empty, arith,
}
use srosha.Errs.Result.{Result, ok, err, ok_injective}
use srosha.Effect.{Under}
use srosha.Effect.Inversion.{lift-then, query-then, unless-then}
use srosha.Table.{find_where}
use srosha.Shared.Id.{SharedId}
use srosha.Delivery.{Time}
use srosha.Source.{Source, ensure_active}
use srosha.Key.{is_live}
use srosha.Console.{Console, KeyRow}
use srosha.Console.Sources.{is_source}
use srosha.Console.Keys.{
  is_live_with, read_source_by_key_hash, no_such_key, joined, with_source, after_key, authenticate,
}

-- The statement looks for exactly the keys that the domain calls live.
live_row :
    (now : Time) (hash : Text) (r : KeyRow)
    → is_live_with now hash r ≡ (text_eqb r.key_hash hash && is_live now r.key)
unfolding is_live
live_row now hash r = refl

-- An answer of `Authenticate` with a source.
pub record IsCaller (now : Time) (hash : Text) (t : Console) (s : Source) (id : SharedId)
    : Type 0 where
  pub row : KeyRow
  pub known :
      find_where (λ (r : KeyRow). text_eqb r.key_hash hash && is_live now r.key) t.keys ≡ some row
  pub key : id ≡ row.key.id
  pub source : find_where (is_source row.key.source_id) t.sources ≡ some s
  pub active : s.is_active ≡ true

read-IsCaller :
    (now : Time) (hash : Text) (t : Console) (s : Source) (id : SharedId)
    → read_source_by_key_hash hash now t ≡ some (s, id)
    → s.is_active ≡ true
    → IsCaller now hash t s id
unfolding read_source_by_key_hash is_live
read-IsCaller now hash t s id h active = on (find_where (is_live_with now hash) t.keys) refl h
  where
    on :
        (o : Option KeyRow)
        → find_where (is_live_with now hash) t.keys ≡ o
        → with_source t.sources o ≡ some (s, id)
        → IsCaller now hash t s id
    on none e h' = cc
    on (some r) e h' = inner (find_where (is_source r.key.source_id) t.sources) refl h'
      where
        inner :
            (o : Option Source)
            → find_where (is_source r.key.source_id) t.sources ≡ o
            → joined r.key.id o ≡ some (s, id)
            → IsCaller now hash t s id
        inner none e' k = cc
        inner (some s') e' k =
            let same : ◌≡◌ {A = Source × SharedId} (s', r.key.id) (s, id) = cc in
            record {
              row = r;
              known = e;
              key = sym (ap (λ x. x.1) same);
              source = e' ∙ ap (λ x. some x.0) same;
              active = active;
            }

-- A hash of which no stored key is live, one that was never issued, has run out or was revoked, is
-- answered in one way, whatever the reason, and the empty hash as well; nothing is changed.
pub authenticate-unknown :
    (now : Time) (hash : Text) (t : Console)
    → (hash ≡ [])
      ⊎ (find_where (λ (r : KeyRow). text_eqb r.key_hash hash && is_live now r.key) t.keys ≡ none)
    → authenticate now hash (t, []) ≡ (err no_such_key, (t, []))
unfolding authenticate read_source_by_key_hash is_live after_key
authenticate-unknown now hash t (inl e) =
    subst (λ h. authenticate now h (t, []) ≡ (err no_such_key, (t, []))) (sym e) refl
authenticate-unknown now hash t (inr e) = elim (Bool-cases (is_empty hash)) [
  | inl empty ↦ rw empty refl
  | inr full ↦ rw (full, e) refl
]

ensure_active_inv : (s : Source) → ensure_active s ≡ ok tt → s.is_active ≡ true
unfolding ensure_active
ensure_active_inv s h = ground arith

-- `Authenticate` answers with a source only if a stored key with that hash is live, as the domain
-- says it, and the source of that key is active; and it changes nothing.
pub authenticate-IsCaller :
    (now : Time) (hash : Text) (s t : Under Console) (caller : Source) (id : SharedId)
    → authenticate now hash s ≡ (ok (caller, id), t)
    → IsCaller now hash s.0 caller id × (t.0 ≡ s.0)
unfolding authenticate after_key
authenticate-IsCaller now hash s t caller id h =
    unless-then s t (caller, id) (is_empty hash) _ _ h
      (λ _ h1.
        query-then s t (caller, id) (λ x. ok (read_source_by_key_hash hash now x)) _ h1
          (λ found u e same h2. on found u (ok_injective _ found e) same h2))
  where
    on :
        (o : Option (Source × SharedId)) (u : Under Console)
        → read_source_by_key_hash hash now s.0 ≡ o
        → s.0 ≡ u.0
        → after_key o u ≡ (ok (caller, id), t)
        → IsCaller now hash s.0 caller id × (t.0 ≡ s.0)
    on none u e same h' = cc
    on (some (c, i)) u e same h' =
        lift-then u t (caller, id) (ensure_active c) _ h'
          (λ _ active h2.
            let is : (c, i) ≡ (caller, id) = ok_injective (c, i) (caller, id) (ap (λ x. x.0) h2) in
            (
              read-IsCaller now hash s.0 caller id (e ∙ ap some is) (
                  subst (λ (x : Source × SharedId). x.0.is_active ≡ true) is
                    (ensure_active_inv c active)),
              sym (ap (λ (x : Result (Source × SharedId) × Under Console). x.1.0) h2) ∙ sym same,
            ))
