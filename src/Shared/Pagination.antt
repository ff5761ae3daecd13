-- ===== src/Shared/Pagination.antt =====
-- src/shared/pagination/index.ts: the order of rows, and a page of them.
use Prim.Native.Nat.{compare, Ordering, lt, eq, gt}
use n2f_nest.Prelude.{
  ℕ, ◌+◌, Bool, true, false, ◌&&◌, ◌||◌, Option, none, some, List, [], ◌∷◌, ltb, ◌==◌, take, select,
  if◌then◌else◌,
}
use n2f_nest.Prelude.Ranked.{sort_by}
use n2f_nest.Shared.Dates.{Time}
use n2f_nest.Shared.Text.{Text}
use n2f_nest.Shared.Ids.{Identifier}

-- After: a keyset position.
pub record After : Type 0 where
  pub at : Time
  pub id : Identifier

-- `<` on strings, by UTF-16 units.
abbrev pub text_lt : Text → Text → Bool
text_lt [] [] = false
text_lt [] (d ∷ ds) = true
text_lt (c ∷ cs) [] = false
text_lt (c ∷ cs) (d ∷ ds) = ltb c d || ((c == d) && text_lt cs ds)

-- The sign of `compareKeyset`.
unfoldable pub compare_keyset : After → After → Ordering
compare_keyset left right = elim (compare left.at right.at) [
  | lt ↦ lt
  | gt ↦ gt
  | eq ↦ if text_lt left.id right.id then lt else if text_lt right.id left.id then gt else eq
]

-- `compareKeyset(left, right) > 0`
unfoldable pub is_later : After → After → Bool
unfolding compare_keyset
is_later left right = elim (compare_keyset left right) [ gt ↦ true | _ ↦ false ]

module _ {ℓ} {A : Type ℓ} (key : A → After) where
  abbrev pub is_past : Option After → A → Bool
  is_past none row = true
  is_past (some a) row = is_later (key row) a

  -- `keysetPage`
  abbrev pub keyset_page : List A → ℕ → Option After → List A
  keyset_page rows limit after =
      take (limit + 1) (select (is_past after) (sort_by is_later key rows))
