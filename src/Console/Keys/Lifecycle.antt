-- ===== src/Console/Keys/Lifecycle.antt =====
-- Keys over time.
use srosha.Prelude.{
  ◌≡◌, refl, ap, sym, ◌∙◌, inl, inr, Bool, true, false, not, Bool-cases, ◌&&◌, ◌||◌, none, some,
  is_some, List, [], ◌∷◌, Text, text_eqb, text_eqb_iff, is_empty, any, All, if◌then◌else◌,
}
use srosha.Errs.Result.{Result, ok, err, ok_injective}
use srosha.Effect.{Under, statement}
use srosha.Effect.Inversion.{query-then, bind-Answers, if-then}
use srosha.Table.{find_where, change_where, found_inv}
use srosha.Shared.Id.{SharedId}
use srosha.Delivery.{Time}
use srosha.Notification.{has_passed}
use srosha.Source.{Source, ensure_active}
use srosha.User.{User}
use srosha.Key.{Key, is_live}
use srosha.Console.{Console, KeyRow}
use srosha.Console.Gate.{Gate, do_act}
use srosha.Console.Gate.Kept.{do_act-Answers}
use srosha.Console.Audited.{list_keys-Still}
use srosha.Console.Sources.{is_source, read_source, one}
use srosha.Console.Keys.{
  read_source_by_key_hash, no_such_key, after_key, as_issued, holds, issued_key, create_key,
  list_keys, issue, revoke, authenticate, is_unrevoked, as_revoked, revoke_key,
}
use srosha.Console.Keys.Caller.{authenticate-unknown}

and_false : (b : Bool) → (b && false) ≡ false
and_false true = refl
and_false false = refl

dead :
    (now now' : Time) (id : SharedId) (hash : Text) (r : KeyRow)
    → (r.key_hash ≡ hash → r.key.id ≡ id)
    → let r' = if is_unrevoked id r then as_revoked now r else r in
      (text_eqb r'.key_hash hash && is_live now' r'.key) ≡ false
unfolding is_live
dead now now' id hash r h = elim (Bool-cases (is_unrevoked id r)) [
  | inl now_revoked ↦ rw now_revoked (and_false (text_eqb r.key_hash hash))
  | inr kept ↦ rw kept (elim (Bool-cases (text_eqb r.key_hash hash)) [
    | inl own ↦
        let own' = h ((text_eqb_iff r.key_hash hash).0 own) in
        let same = (text_eqb_iff r.key.id id).1 own' in
        let gone : not (is_some r.key.revoked_at) ≡ false = rw same at kept in rw (own, gone) refl
    | inr other ↦ rw other refl
  ])
]

-- Revoked keys are not found.
revoked-none :
    (now now' : Time) (id : SharedId) (hash : Text) (rows : List KeyRow)
    → All (λ (r : KeyRow). r.key_hash ≡ hash → r.key.id ≡ id) rows
    → find_where
        (λ (r : KeyRow). text_eqb r.key_hash hash && is_live now' r.key)
        (change_where (is_unrevoked id) (as_revoked now) rows)
      ≡ none
unfolding find_where change_where is_live
revoked-none now now' id hash [] h = refl
revoked-none now now' id hash (r ∷ rows) h =
    rw (dead now now' id hash r h.0) (revoked-none now now' id hash rows h.1)

one-Answers :
    (a : User) (id : Text) (s t : Under Console) (src : Source)
    → one a id s ≡ (ok src, t)
    → (find_where (is_source id) s.0.sources ≡ some src) × (src.owner_user_id ≡ a.id) × (t.0 ≡ s.0)
unfolding one read_source
one-Answers a id s t src h = query-then s t src (read_source id) _ h (λ found u e same h1.
    if-then u t src (text_eqb found.owner_user_id a.id) _ _ h1 (λ own h2.
      let is : found ≡ src = ok_injective found src (ap (λ x. x.0) h2) in
      (
        found_inv _ _ found e ∙ ap some is,
        sym (ap (λ (x : Source). x.owner_user_id) is)
            ∙ (text_eqb_iff found.owner_user_id a.id).0 own,
        sym (ap (λ (x : Result Source × Under Console). x.1.0) h2) ∙ sym same,
      )))

-- When a key was revoked, its hash is answered as one that was never issued, at any time.
pub revoke-authenticate :
    (g : Gate) (now : Time) (a : User) (source_id : Text) (id : SharedId) (s t : Under Console)
    (now' : Time) (hash : Text)
    → revoke g now a source_id id s ≡ (ok tt, t)
    → All (λ (r : KeyRow). r.key_hash ≡ hash → r.key.id ≡ id) s.0.keys
    → authenticate now' hash (t.0, []) ≡ (err no_such_key, (t.0, []))
unfolding revoke revoke_key
revoke-authenticate g now a source_id id s t now' hash h own =
    let (keys, u, e, h1) = bind-Answers (list_keys a source_id) _ s t tt h in
    let still : u.0 ≡ s.0 =
      sym (ap (λ (x : Result (List Key) × Under Console). x.1.0) e)
      ∙ (list_keys-Still a source_id).at s in
    if-then u t tt (holds keys id) _ _ h1 (λ held h2.
      let (x, y, before, done, after) = do_act-Answers g a _ (revoke_key id now) u t h2 in
      let same : t.0.keys ≡ change_where (is_unrevoked id) (as_revoked now) s.0.keys =
        after.keys
        ∙ (sym (ap (λ (z : Result (Unit {0}) × Console). z.1.keys) done)
            ∙ ap (λ ks. change_where (is_unrevoked id) (as_revoked now) ks)
                (before.keys ∙ ap (λ (z : Console). z.keys) still)) in
      authenticate-unknown now' hash t.0 (
        inr (
          ap (λ ks. find_where (λ (r : KeyRow). text_eqb r.key_hash hash && is_live now' r.key) ks)
            same
          ∙ revoked-none now now' id hash s.0.keys own)))

created :
    (k : Key) (hash : Text) (x y : Console)
    → create_key k hash x ≡ (ok tt, y)
    → (y.keys ≡ as_issued k hash ∷ x.keys) × (y.sources ≡ x.sources)
unfolding create_key
created k hash x y h =
    elim (Bool-cases
      (any (λ (r : KeyRow). text_eqb r.key_hash hash || text_eqb r.key.id k.id) x.keys)) [
        | inl taken ↦ let h' = rw taken at h in cc
        | inr new ↦
            let h' = rw new at h in (sym (ap (λ z. z.1.keys) h'), sym (ap (λ z. z.1.sources) h'))
      ]

fresh-authenticate :
    (now : Time) (hash : Text) (k : Key) (rows : List KeyRow) (t : Console) (src : Source)
    → t.keys ≡ as_issued k hash ∷ rows
    → find_where (is_source k.source_id) t.sources ≡ some src
    → k.expires_at ≡ none
    → is_empty hash ≡ false
    → src.is_active ≡ true
    → authenticate now hash (t, []) ≡ (ok (src, k.id), (t, []))
unfolding authenticate read_source_by_key_hash after_key ensure_active find_where has_passed
fresh-authenticate now hash k rows t src h found forever full active =
    let own = (text_eqb_iff hash hash).1 refl in rw (full, h, own, forever, found, active) refl

-- A key that was issued is the caller's at once: its hash is answered with the source it was issued
-- for, which is the actor's own, as long as that is active.
pub issue-authenticate :
    (g : Gate) (hash key : Text) (id : SharedId) (now : Time) (a : User) (source_id label : Text)
    (s t : Under Console) (k : Key) (now' : Time)
    → issue g (ok (key, hash)) id now a source_id label s ≡ (ok (key, k), t)
    → is_empty hash ≡ false
    → (src : Source) × (find_where (is_source source_id) s.0.sources ≡ some src)
      × (src.owner_user_id ≡ a.id)
      × (src.is_active ≡ true → authenticate now' hash (t.0, []) ≡ (ok (src, id), (t.0, [])))
unfolding issue
issue-authenticate g hash key id now a source_id label s t k now' h full =
    let (src, u, e, h1) = bind-Answers (one a source_id) _ s t (key, k) h in
    let (found, own, still) = one-Answers a source_id s u src e in
    let new = issued_key id source_id label now in
    let (_, v, e2, h2) =
      bind-Answers (do_act g (some a) _ (statement (create_key new hash))) _ u t (key, k) h1 in
    let (x, y, before, done, after) = do_act-Answers g a _ (create_key new hash) u v e2 in
    let keys : t.0.keys ≡ as_issued new hash ∷ x.keys =
      sym (ap (λ (z : Result (Text × Key) × Under Console). z.1.0.keys) h2)
      ∙ (after.keys ∙ (created new hash x y done).0) in
    let sources : t.0.sources ≡ s.0.sources =
      sym (ap (λ (z : Result (Text × Key) × Under Console). z.1.0.sources) h2)
      ∙ (after.sources
          ∙ ((created new hash x y done).1
              ∙ (before.sources ∙ ap (λ (z : Console). z.sources) still))) in
    (
      src,
      found,
      own,
      λ active.
          fresh-authenticate now' hash (issued_key id source_id label now) x.keys t.0 src keys
            (ap (λ ss. find_where (is_source source_id) ss) sources ∙ found) refl full active,
    )
