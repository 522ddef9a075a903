-- ===== src/Shared/Priority.antt =====
-- internal/core/shared/priority.go. An `int8` is an integer; the order is that of integers.
pub mod Order
use srosha.Prelude.{
  zero, suc, Bool, Option, none, some, is_some, Text, text, text_eqb, ℤ, pos, negsuc, ltb_ℤ,
  if◌then◌else◌,
}
use srosha.Errs.{detailed, invalid_input, unknown_priority}
use srosha.Errs.Result.{Result, ok, err}

abbrev pub Priority : Type 0
Priority = ℤ

abbrev pub priority_normal : Priority
priority_normal = pos 0

abbrev pub priority_high : Priority
priority_high = pos 1

abbrev pub priority_critical : Priority
priority_critical = pos 2

-- The values of `priorityNames`, and its lookup.
abbrev pub normal_name : Text
normal_name = text "NORMAL"

abbrev pub high_name : Text
high_name = text "HIGH"

abbrev pub critical_name : Text
critical_name = text "CRITICAL"

unfoldable pub priority_name : Priority → Option Text
priority_name (pos zero) = some normal_name
priority_name (pos (suc zero)) = some high_name
priority_name (pos (suc (suc zero))) = some critical_name
priority_name (pos (suc (suc (suc n)))) = none
priority_name (negsuc n) = none

-- `Priority.Valid`.
unfoldable pub valid : Priority → Bool
unfolding priority_name
valid p = is_some (priority_name p)

unfoldable pub clamp : Priority → Priority → Priority
clamp p max = if ltb_ℤ max p then max else p

-- The loop over `priorityNames`; its names differ, so the order does not matter.
unfoldable pub parse_priority : Text → Result Priority
parse_priority s =
    if text_eqb normal_name s
    then ok priority_normal
    else if text_eqb high_name s
    then ok priority_high
    else if text_eqb critical_name s
    then ok priority_critical
    else err (detailed invalid_input unknown_priority)
