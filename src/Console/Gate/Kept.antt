-- ===== src/Console/Gate/Kept.antt =====
-- What a change through the gate keeps.
use srosha.Prelude.{
  ap, sym, subst, ◌≡◌, refl, inl, inr, Bool-cases, any, text_eqb, Option, none, some,
}
use srosha.Errs.Result.{Result, ok}
use srosha.Effect.{Under, Effect, statement}
use srosha.Effect.Inversion.{statement-then}
use srosha.Effect.Keeps.{Keeps, bind-Keeps, fail-Keeps, statement-Keeps}
use srosha.User.{User}
use srosha.Console.{Console, AuditEntry}
use srosha.Console.Gate.{Gate, Act, do_act, record_audit, entry_of, tell}

pub do_act-Keeps :
    (R : Console → Console → Type 0) (same : (s : Console) → R s s)
    (join : (s t u : Console) → R s t → R t u → R s u)
    (audited : (s : Console) (g : Gate) (a : User) (act : Act)
      → R s (record_audit (entry_of g a act) s).1)
    (told : (g : Gate) (a : User) (act : Act) → Keeps R (tell g (entry_of g a act))) (g : Gate)
    (actor : Option User) (act : Act) (change : Effect Console (Unit {0}))
    → Keeps R change
    → Keeps R (do_act g actor act change)
unfolding do_act
do_act-Keeps R same join audited told g none act change h = fail-Keeps _ same
do_act-Keeps R same join audited told g (some a) act change h =
    bind-Keeps R same join (statement (record_audit (entry_of g a act))) _
      (statement-Keeps R same join _ (λ s. audited s g a act))
      (λ _. bind-Keeps R same join change _ h (λ _. told g a act))

pub record_audit-users : (e : AuditEntry) (t : Console) → (record_audit e t).1.users ≡ t.users
unfolding record_audit
record_audit-users e t = elim (Bool-cases (any (λ (x : AuditEntry). text_eqb x.id e.id) t.audit)) [
  | inl taken ↦ rw taken refl
  | inr new ↦ rw new refl
]

pub tell-users :
    (g : Gate) (e : AuditEntry) (u : Under Console) → (tell g e u).1.0.users ≡ u.0.users
tell-users g e u = elim (Bool-cases g.alerting) [ inl on ↦ rw on refl | inr off ↦ rw off refl ]

-- Tables that differ in the audit and the alerts alone.
pub record Alike (t t' : Console) : Type 0 where
  pub users : t'.users ≡ t.users
  pub sources : t'.sources ≡ t.sources
  pub keys : t'.keys ≡ t.keys

recorded-Alike : (e : AuditEntry) (t t' : Console) → record_audit e t ≡ (ok tt, t') → Alike t t'
unfolding record_audit
recorded-Alike e t t' h = elim (Bool-cases (any (λ (x : AuditEntry). text_eqb x.id e.id) t.audit)) [
  | inl taken ↦ let h' = rw taken at h in cc
  | inr new ↦
      let h' = rw new at h in
      record {
        users = sym (ap (λ x. x.1.users) h');
        sources = sym (ap (λ x. x.1.sources) h');
        keys = sym (ap (λ x. x.1.keys) h');
      }
]

tell-Alike : (g : Gate) (e : AuditEntry) (u : Under Console) → Alike u.0 (tell g e u).1.0
tell-Alike g e u = elim (Bool-cases g.alerting) [
  | inl on ↦ rw on (record { users = refl; sources = refl; keys = refl })
  | inr off ↦ rw off (record { users = refl; sources = refl; keys = refl })
]

-- A change through the gate that was made, was made on tables like those before.
pub do_act-Answers :
    (g : Gate) (a : User) (act : Act) (q : Console → Result (Unit {0}) × Console)
    (s t : Under Console)
    → do_act g (some a) act (statement q) s ≡ (ok tt, t)
    → (x y : Console) × Alike s.0 x × (q x ≡ (ok tt, y)) × Alike y t.0
unfolding do_act
do_act-Answers g a act q s t h =
    let e = entry_of g a act in
    statement-then s t tt (record_audit e) _ h (λ _ u written h1.
      statement-then u t tt q _ h1 (λ _ v changed h2. (
        u.0,
        v.0,
        recorded-Alike e s.0 u.0 written,
        changed,
        subst (λ (x : Result (Unit {0}) × Under Console). Alike v.0 x.1.0) h2 (tell-Alike g e v),
      )))
