-- ===== src/Shared/Cursor.antt =====
-- internal/core/shared/pagination.go: where a listing starts and how far it goes.
use srosha.Prelude.{◌≡◌, ◌⊎◌, arith, Option, ℤ, pos, ltb_ℤ, ◌≤ℤ◌, if◌then◌else◌}
use srosha.Shared.Id.{SharedId}

abbrev pub default_page_size : ℤ
default_page_size = pos 50

abbrev pub max_page_size : ℤ
max_page_size = pos 500

pub record Cursor : Type 0 where
  pub after : Option SharedId
  pub limit : ℤ

default_limit : Cursor → Cursor
default_limit c = if ltb_ℤ (pos 0) c.limit then c else record c { limit = default_page_size }

unfoldable pub normalize : Cursor → Cursor
unfolding default_limit
normalize c =
    let d = default_limit c in
    if ltb_ℤ max_page_size d.limit then record d { limit = max_page_size } else d

-- A normalized cursor asks for between one row and the ceiling, starts where it did, keeps a
-- limit that was in range, and is not changed by being normalized again.
pub normalize_lem :
    (c : Cursor)
    → (pos 1 ≤ℤ (normalize c).limit)
      × ((normalize c).limit ≤ℤ max_page_size)
      × ((normalize c).after ≡ c.after)
      × ((normalize c ≡ c) ⊎ (¬ (pos 1 ≤ℤ c.limit) ⊎ ¬ (c.limit ≤ℤ max_page_size)))
      × (normalize (normalize c) ≡ normalize c)
unfolding normalize
normalize_lem c = (ground arith, ground arith, ground arith, ground arith, ground arith)
