-- ===== src/Shared/Priority/Order.antt =====
-- The silent downgrade's mechanical half, and the names of priorities.
use srosha.Prelude.{
  suc, zero, ◌≡◌, refl, subst, ◌⊎◌, ◌↔◌, some, arith, Text, text_eqb, text_eqb_iff, pos, negsuc,
  ◌≤ℤ◌,
}
use mathlib.Core.Option
use srosha.Errs.Result.{ok}
use srosha.Shared.Priority.{
  Priority, normal_name, high_name, critical_name, priority_name, clamp, parse_priority,
}

-- A clamped priority is at most the ceiling and at most what was asked for, and it is one of the
-- two: what was asked for exactly when that is within the ceiling.
pub clamp_bounds :
    (p max : Priority)
    → (clamp p max ≤ℤ max)
      × (clamp p max ≤ℤ p)
      × ((clamp p max ≡ p) ⊎ (clamp p max ≡ max))
      × ((p ≤ℤ max) ↔ (clamp p max ≡ p))
unfolding clamp
clamp_bounds p max =
    (ground arith, ground arith, ground arith, (λ h. ground arith, λ h. ground arith))

parse_of_name : (p : Priority) (s : Text) → priority_name p ≡ some s → parse_priority s ≡ ok p
unfolding parse_priority priority_name text_eqb
parse_of_name (pos zero) s h =
    subst (λ t. parse_priority t ≡ ok (pos 0)) (Option.some-injective _ s h) refl
parse_of_name (pos (suc zero)) s h =
    subst (λ t. parse_priority t ≡ ok (pos 1)) (Option.some-injective _ s h) refl
parse_of_name (pos (suc (suc zero))) s h =
    subst (λ t. parse_priority t ≡ ok (pos 2)) (Option.some-injective _ s h) refl
parse_of_name (pos (suc (suc (suc n)))) s h = cc
parse_of_name (negsuc n) s h = cc

name_of_parse : (p : Priority) (s : Text) → parse_priority s ≡ ok p → priority_name p ≡ some s
unfolding parse_priority priority_name
name_of_parse p s h =
    ground
      (arith, text_eqb_iff normal_name s, text_eqb_iff high_name s, text_eqb_iff critical_name s)

-- A priority that has a name is read back from that name, and a text that is read as a priority
-- is the name of that priority.
pub parse_priority-name :
    (p : Priority) (s : Text) → (priority_name p ≡ some s) ↔ (parse_priority s ≡ ok p)
parse_priority-name p s = (parse_of_name p s, name_of_parse p s)
