-- ===== src/Shared/Examples.antt =====
-- Concrete rows, at which the theorem about the pages of src/shared/pagination/index.ts is applied.
use n2f_nest.Prelude.{ap, none, List, [], ◌∷◌, arith}
use mathlib.Core.List.{Permᴰ}
use n2f_nest.Prelude.Ranked.{Ascending}
use n2f_nest.Shared.Text.{codes}
use n2f_nest.Shared.Pagination.{After, is_later}
use n2f_nest.Shared.Walk.{walk, walk-lists}

abbrev first_row : After
first_row = record { at = 3000; id = codes "a" }

abbrev second_row : After
second_row = record { at = 1000; id = codes "b" }

abbrev third_row : After
third_row = record { at = 2000; id = codes "a" }

abbrev rows : List After
rows = first_row ∷ second_row ∷ third_row ∷ []

abbrev itself : After → After
itself row = row

walk-lists_example :
    Ascending is_later itself (walk itself rows 2 4 none) × Permᴰ rows (walk itself rows 2 4 none)
walk-lists_example =
    walk-lists itself rows 2 4 (omega arith)
      ((
        ((tt, tt), ((λ e. absurd (omega (arith, ap (λ r. r.at) e))), tt)),
        (
          (λ e. absurd (omega (arith, ap (λ r. r.at) e))),
          ((λ e. absurd (omega (arith, ap (λ r. r.at) e))), tt),
        ),
      ))
      (omega arith)
