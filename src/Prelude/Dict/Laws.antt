-- ===== src/Prelude/Dict/Laws.antt =====
-- When a difference of sets is empty.
use mathlib.Core.Path.{◌≡◌, refl}
use mathlib.Core.Logic.{◌↔◌}
use mathlib.Core.Bool.{true, false}
use mathlib.Core.List.{List, [], ◌∷◌}
use native.Mathlib.Omega.{arith}
use Prim.Native.String.{String}
use libpglite.Prelude.Lists.{All, is_empty, is_empty-keep}
use libpglite.Prelude.Text.{mem}
use libpglite.Prelude.Dict.{insert_sorted, sort_unique, missing_from}

insert_sorted-ne-nil : (s : String) (ss : List String) → is_empty (insert_sorted s ss) ≡ false
unfolding insert_sorted
insert_sorted-ne-nil s [] = refl
insert_sorted-ne-nil s (t ∷ ts) = ground arith

sort_unique-empty : (ss : List String) → is_empty (sort_unique ss) ≡ is_empty ss
unfolding sort_unique
sort_unique-empty [] = refl
sort_unique-empty (s ∷ ss) = insert_sorted-ne-nil s (sort_unique ss)

-- `not (a - b)` says that every item of `a` is in `b`.
pub missing_from-empty :
    (a b : List String) → (is_empty (missing_from a b) ≡ true) ↔ All (λ s. mem s b ≡ true) a
unfolding missing_from
missing_from-empty a b = rw sort_unique-empty (is_empty-keep (λ s. mem s b) a)
