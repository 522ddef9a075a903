-- ===== src/Vault/Defaults.antt =====
-- The defaults of the channels of a source.
use srosha.Prelude.{
  ◌≡◌, refl, sym, ◌∙◌, ◌⊎◌, inl, inr, Bool, true, false, not, ◌&&◌, ◌||◌, Bool-cases, List, [], ◌∷◌,
  Text, any, All, if◌then◌else◌,
}
use srosha.Table.{change_where}
use srosha.Shared.Channel.{Channel}
use srosha.Vault.{Row, Vault, is_default_of, one_default}

-- A default that can be used.
abbrev pub IsUsable : Row → Type 0
IsUsable r = (r.cred.is_default ≡ false) ⊎ (r.cred.is_active ≡ true)

-- What holds of the table.
pub record IsKept (t : Vault) : Type 0 where
  pub single : one_default t.rows ≡ true
  pub usable : All IsUsable t.rows

and_false : (b : Bool) → (b && false) ≡ false
and_false true = refl
and_false false = refl

both_false : (b d e : Bool) → d ≡ true → (b && d) ≡ false → (b && e) ≡ false
both_false true d e h n = let bad : true ≡ false = sym h ∙ n in cc
both_false false d e h n = refl

pub or_inv : (a b : Bool) → (a || b) ≡ false → (a ≡ false) × (b ≡ false)
or_inv true b h = cc
or_inv false b h = (refl, h)

pub and_inv : (a b : Bool) → (a && b) ≡ true → (a ≡ true) × (b ≡ true)
and_inv true b h = (refl, h)
and_inv false b h = cc

pub and_intro : {a b : Bool} → a ≡ true → b ≡ true → (a && b) ≡ true
and_intro h k = rw (h, k) refl

not_and_false : (b : Bool) → not (b && false) ≡ true
not_and_false true = refl
not_and_false false = refl

not_inv : (b : Bool) → not b ≡ true → b ≡ false
not_inv true h = cc
not_inv false h = refl

-- A change that makes no default, and moves no row to another channel.
pub record IsTame (f : Row → Row) : Type 0 where
  pub source_id : (r : Row) → (f r).cred.source_id ≡ r.cred.source_id
  pub channel : (r : Row) → (f r).cred.channel ≡ r.cred.channel
  pub default : (r : Row) → r.cred.is_default ≡ false → (f r).cred.is_default ≡ false

abbrev changed : (Row → Bool) → (Row → Row) → Row → Row
changed p f r = if p r then f r else r

changed-IsTame : (p : Row → Bool) (f : Row → Row) → IsTame f → IsTame (changed p f)
changed-IsTame p f h = record {
  source_id = λ r. elim (Bool-cases (p r)) [ inl m ↦ rw m (h.source_id r) | inr o ↦ rw o refl ];
  channel = λ r. elim (Bool-cases (p r)) [ inl m ↦ rw m (h.channel r) | inr o ↦ rw o refl ];
  default = λ r d. elim (Bool-cases (p r)) [ inl m ↦ rw m (h.default r d) | inr o ↦ rw o d ];
}

tame-default :
    (f : Row → Row) (source_id : Text) (c : Channel) (r : Row)
    → IsTame f
    → is_default_of source_id c r ≡ false
    → is_default_of source_id c (f r) ≡ false
tame-default f source_id c r h n =
    rw (h.source_id r, h.channel r)
      (elim (Bool-cases r.cred.is_default) [
        | inl on ↦ both_false _ r.cred.is_default (f r).cred.is_default on n
        | inr off ↦ rw (h.default r off) (and_false _)
      ])

any-change :
    (p : Row → Bool) (f : Row → Row) (source_id : Text) (c : Channel) (rows : List Row)
    → IsTame f
    → any (is_default_of source_id c) rows ≡ false
    → any (is_default_of source_id c) (change_where p f rows) ≡ false
unfolding change_where
any-change p f source_id c [] h n = refl
any-change p f source_id c (r ∷ rows) h n =
    let (mine, rest) = or_inv (is_default_of source_id c r) _ n in
    rw (tame-default (changed p f) source_id c r (changed-IsTame p f h) mine)
      (any-change p f source_id c rows h rest)

pub one_default-change :
    (p : Row → Bool) (f : Row → Row) (rows : List Row)
    → IsTame f
    → one_default rows ≡ true
    → one_default (change_where p f rows) ≡ true
unfolding one_default change_where
one_default-change p f [] h n = refl
one_default-change p f (r ∷ rows) h n =
    let t = changed-IsTame p f h in
    let (mine, rest) =
      and_inv (not (r.cred.is_default && any (is_default_of r.cred.source_id r.cred.channel) rows))
        _ n in
    rw (t.source_id r, t.channel r)
      (and_intro
        (elim (Bool-cases r.cred.is_default) [
          | inl on ↦
              rw (any-change p f r.cred.source_id r.cred.channel rows h (only on mine))
                (not_and_false (changed p f r).cred.is_default)
          | inr off ↦ rw (t.default r off) refl
        ])
        (one_default-change p f rows h rest))
  where
    only :
        r.cred.is_default ≡ true
        → not (r.cred.is_default && any (is_default_of r.cred.source_id r.cred.channel) rows) ≡ true
        → any (is_default_of r.cred.source_id r.cred.channel) rows ≡ false
    only on e = let e' = rw on at e in not_inv _ e'

pub IsUsable-change :
    (p : Row → Bool) (f : Row → Row) (rows : List Row)
    → ((r : Row) → p r ≡ true → IsUsable r → IsUsable (f r))
    → All IsUsable rows
    → All IsUsable (change_where p f rows)
unfolding change_where
IsUsable-change p f [] h all = tt
IsUsable-change p f (r ∷ rows) h all = (
  elim (Bool-cases (p r)) [ inl meant ↦ rw meant (h r meant all.0) | inr other ↦ rw other all.0 ],
  IsUsable-change p f rows h all.1,
)
