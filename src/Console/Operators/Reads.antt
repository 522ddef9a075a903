-- ===== src/Console/Operators/Reads.antt =====
-- internal/core/usecase/operator_read.go and the lists of operator.go and operator_people.go: what an
-- operator sees.
use srosha.Prelude.{
  Bool-cases, inl, inr, ℕ, ◌+◌, ◌-◌, ◌*◌, ◌≤◌, ◌<◌, ◌≡◌, refl, ap, sym, subst, ◌⊎◌, zero, suc, ◌&&◌,
  Bool, true, false, any, Option, List, [], ◌∷◌, ◌++◌, Text, text_eqb, length, length-append, ltb,
  leb, arith, if◌then◌else◌,
}
use srosha.Errs.Result.{ok}
use srosha.Effect.{Effect, ◌>>◌, lift, query}
use srosha.Table.{filter_where, order_by, limited}
use srosha.Shared.Id.{SharedId}
use srosha.Source.{Source}
use srosha.User.{User}
use srosha.Console.{Console, AuditEntry}
use srosha.Console.SignIn.{read_user}
use srosha.Console.Sources.{source_kind, read_source, list_for_review, list_all}
use srosha.Console.Operators.{truncate, may_operate, may_govern, source_decision_verbs}

-- `List` and `ListByTarget` of audit.go.
abbrev newer_entry : AuditEntry → AuditEntry → Bool
newer_entry a b = leb b.at a.at

unfoldable pub list_audit : ℕ → Console → List AuditEntry
list_audit n t = limited n (order_by newer_entry t.audit)

abbrev pub is_about : Text → Text → List Text → AuditEntry → Bool
is_about kind id verbs e =
    text_eqb e.target_type kind && (text_eqb e.target_id id && any (text_eqb e.verb) verbs)

unfoldable pub list_by_target : Text → Text → List Text → ℕ → Console → List AuditEntry
list_by_target kind id verbs n t =
    limited n (order_by newer_entry (filter_where (is_about kind id verbs) t.audit))

-- `List` of user.go.
unfoldable pub list_users : ℕ → Console → List User
list_users n t = limited n (order_by (λ (a b : User). leb b.created_at a.created_at) t.users)

-- A list of which one row more than the limit is read.
abbrev listed : {A : Type 0} → ℕ → (ℕ → Console → List A) → Effect Console (List A × Bool)
listed limit rows = query (λ t. ok (truncate limit (rows (limit + 1) t)))

-- `Queue`, `AllSources` and `Source`.
unfoldable pub queue : ℕ → Option User → Effect Console (List Source × Bool)
unfolding may_operate truncate list_for_review
queue limit actor = do lift (may_operate actor); listed limit list_for_review

unfoldable pub all_sources : ℕ → Option User → Effect Console (List Source × Bool)
unfolding may_operate truncate list_all
all_sources limit actor = do lift (may_operate actor); listed limit list_all

unfoldable pub source_of : Option User → Text → Effect Console Source
unfolding may_operate read_source
source_of actor id = do lift (may_operate actor); query (read_source id)

-- `People` and `Person`.
unfoldable pub people : ℕ → Option User → Effect Console (List User × Bool)
unfolding may_govern truncate list_users
people limit actor = do lift (may_govern actor); listed limit list_users

unfoldable pub person : Option User → SharedId → Effect Console User
unfolding may_govern read_user
person actor id = do lift (may_govern actor); query (read_user id)

-- `Audit` and `SourceHistory`.
unfoldable pub audit_log : ℕ → Option User → Effect Console (List AuditEntry × Bool)
unfolding may_govern truncate list_audit
audit_log limit actor = do lift (may_govern actor); listed limit list_audit

unfoldable pub source_history : ℕ → Option User → Text → Effect Console (List AuditEntry × Bool)
unfolding may_operate truncate list_by_target
source_history limit actor id = do
  lift (may_operate actor)
  listed limit (list_by_target source_kind id source_decision_verbs)

-- `mask`, on the bytes of an address. The sign between what is left is U+2026.
abbrev pub ellipsis : Text
ellipsis = 226 ∷ (128 ∷ (166 ∷ []))

from : ℕ → Text → Text
from zero t = t
from (suc n) [] = []
from (suc n) (c ∷ t) = from n t

abbrev pub keep : ℕ
keep = 2

unfoldable pub mask : Text → Text
unfolding from
mask address =
    if ltb (length address) (keep * 4)
    then ellipsis
    else limited keep address ++ (ellipsis ++ from (length address - keep) address)

limited-limited :
    {A : Type 0} (n : ℕ) (rows : List A) → limited n (limited (suc n) rows) ≡ limited n rows
unfolding limited
limited-limited zero rows = refl
limited-limited (suc n) [] = refl
limited-limited (suc n) (a ∷ rows) = ap (λ r. a ∷ r) (limited-limited n rows)

limited-all :
    {A : Type 0} (n : ℕ) (rows : List A)
    → ltb n (length rows) ≡ false
    → limited (suc n) rows ≡ limited n rows
unfolding limited
limited-all zero [] h = refl
limited-all zero (a ∷ rows) h = ground arith
limited-all (suc n) [] h = refl
limited-all (suc n) (a ∷ rows) h = ap (λ r. a ∷ r) (limited-all n rows (ground arith))

ltb-limited :
    {A : Type 0} (n : ℕ) (rows : List A)
    → ltb n (length (limited (suc n) rows)) ≡ ltb n (length rows)
unfolding limited
ltb-limited zero [] = refl
ltb-limited zero (a ∷ rows) = ground arith
ltb-limited (suc n) [] = refl
ltb-limited (suc n) (a ∷ rows) = ground (arith, ltb-limited n rows)

-- Rows that were read with one more than the limit are cut to the first ones up to the limit, and
-- it is told exactly whether there are more.
pub truncate-limited :
    {A : Type 0} (n : ℕ) (rows : List A)
    → truncate n (limited (n + 1) rows) ≡ (limited n rows, ltb n (length rows))
unfolding truncate
truncate-limited n rows =
    subst (λ m. truncate n (limited m rows) ≡ (limited n rows, ltb n (length rows))) (omega arith)
      (cut (Bool-cases (ltb n (length rows))))
  where
    cut :
        (ltb n (length rows) ≡ true) ⊎ (ltb n (length rows) ≡ false)
        → truncate n (limited (suc n) rows) ≡ (limited n rows, ltb n (length rows))
    cut (inl more) = rw (ltb-limited n rows, more, limited-limited n rows) refl
    cut (inr all) = rw (ltb-limited n rows, all, limited-all n rows all) refl

from-length : (inner rest : Text) → from (length inner) (inner ++ rest) ≡ rest
unfolding from
from-length [] rest = refl
from-length (c ∷ inner) rest = from-length inner rest

-- Of an address of at least eight bytes a mask shows the first two and the last two bytes, and not
-- even the number of the others; of a shorter one it shows nothing.
pub mask_lem :
    (address inner : Text) (a b c d : ℕ)
    → (length address < 8 → mask address ≡ ellipsis)
      × (address ≡ a ∷ (b ∷ (inner ++ (c ∷ (d ∷ []))))
          → 4 ≤ length inner
          → mask address ≡ a ∷ (b ∷ (ellipsis ++ (c ∷ (d ∷ [])))))
unfolding mask limited from
mask_lem address inner a b c d = (
  λ h. short h,
  λ e h. subst (λ t. mask t ≡ a ∷ (b ∷ (ellipsis ++ (c ∷ (d ∷ []))))) (sym e) (long h),
)
  where
    short : length address < 8 → mask address ≡ ellipsis
    short h = let yes : ltb (length address) 8 ≡ true = ground arith in rw yes refl

    whole : Text
    whole = a ∷ (b ∷ (inner ++ (c ∷ (d ∷ []))))

    long : 4 ≤ length inner → mask whole ≡ a ∷ (b ∷ (ellipsis ++ (c ∷ (d ∷ []))))
    long h =
        let n = length-append inner (c ∷ (d ∷ [])) in
        let no : ltb (length whole) 8 ≡ false = ground (arith, n) in
        let behind : length whole - 2 ≡ suc (suc (length inner)) = ground (arith, n) in
        rw (no, behind, from-length inner (c ∷ (d ∷ []))) refl
