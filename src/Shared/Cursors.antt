-- ===== src/Shared/Cursors.antt =====
-- src/shared/pagination/index.ts: cursors and windows, and `decimal` of src/shared/validation/index.ts.
use n2f_nest.Prelude.{
  ℕ, ◌+◌, ◌*◌, ◌-◌, Bool, true, false, ◌&&◌, ◌||◌, not, Option, none, some, List, [], ◌∷◌, ◌++◌,
  ltb, leb, ◌==◌, length, take, any, every, if◌then◌else◌,
}
use n2f_nest.Prelude.Maps.{◌===◌}
use n2f_nest.Shared.Errors.{
  Kind, failure, Failure, Result, ok, err, require, map_error, ◌>>=◌, ◌>>◌,
}
use n2f_nest.Shared.Numbers.{nat}
use n2f_nest.Shared.Dates.{Time}
use n2f_nest.Shared.Text.{Text, text_eq}
use n2f_nest.Shared.Values.{Value, number, string}
use n2f_nest.Shared.Pagination.{After}

-- What the runtime does: the length of a string in bytes, the base64url text of the JSON of `[1, scope, position]`,
-- the elements of the JSON array that a canonical base64url text holds, and the ISO text of a time and back.
pub record Runtime : Type 0 where
  pub byte_length : Text → ℕ
  pub to_wire : Text → Text → Text
  pub from_wire : Text → Option (List Value)
  pub iso_string : Time → Text
  pub parse_date : Text → Option Time

abbrev pub invalid : Failure
invalid = failure Kind.invalid "pagination.invalid"

abbrev invalid_decimal : Failure
invalid_decimal = failure Kind.invalid "validation.decimal"

abbrev is_high : ℕ → Bool
is_high c = leb 55296 c && leb c 56319

abbrev is_low : ℕ → Bool
is_low c = leb 56320 c && leb c 57343

-- `[\uD800-\uDFFF]` with the flag `u`: a surrogate that stands alone.
unfoldable pub has_lone : Text → Bool
has_lone [] = false
has_lone (c ∷ []) = is_high c || is_low c
has_lone (c ∷ d ∷ cs) =
    let after_pair = has_lone cs in
    let after_one = has_lone (d ∷ cs) in
    if is_high c && is_low d then after_pair else is_high c || is_low c || after_one

abbrev is_control : ℕ → Bool
is_control c = ltb c 32 || (c == 127)

abbrev is_digit : ℕ → Bool
is_digit c = leb 48 c && leb c 57

-- `[A-Za-z0-9_-]`
abbrev is_url_char : ℕ → Bool
is_url_char c =
    is_digit c || (leb 65 c && leb c 90) || (leb 97 c && leb c 122) || (c == 95) || (c == 45)

-- `^(0|[1-9][0-9]*)$`
abbrev pub is_decimal : Text → Bool
is_decimal [] = false
is_decimal (c ∷ cs) = ((c == 48) && (length cs == 0)) || (leb 49 c && leb c 57 && every is_digit cs)

-- `Number` of a text of digits, with the digits before.
abbrev pub digits : ℕ → Text → ℕ
digits n [] = n
digits n (c ∷ cs) = digits (n * 10 + (c - 48)) cs

-- `decimal`, of a string.
unfoldable pub decimal : Text → ℕ → ℕ → Result ℕ
decimal value min max =
    require (leb min max && leb max 2147483647) (failure Kind.invalid "validation.policy")
    >> require (leb (length value) 10 && is_decimal value) invalid_decimal
    >> require (leb min (digits 0 value) && leb (digits 0 value) max) invalid_decimal
    >> ok (digits 0 value)

unfoldable pub size : Option Text → Result ℕ
size none = ok 25
size (some raw) = decimal raw 1 100

pub record Page {ℓ} (A : Type ℓ) : Type ℓ where
  pub items : List A
  pub has_more : Bool
  pub next_cursor : Option Text

pub record PageRequest : Type 0 where
  pub limit : ℕ
  pub start_after : Option After

abbrev pub last {ℓ} : {A : Type ℓ} → List A → Option A
last [] = none
last (x ∷ []) = some x
last (x ∷ y ∷ ys) = last (y ∷ ys)

-- `split('|')`
abbrev pub split_bar : Text → List Text
split_bar [] = [] ∷ []
split_bar (c ∷ cs) = elim (split_bar cs) [
  | [] ↦ []
  | part ∷ parts ↦ if c == 124 then [] ∷ part ∷ parts else (c ∷ part) ∷ parts
]

module _ (runtime : Runtime) where
  unfoldable pub valid_part : Text → ℕ → Bool
  valid_part value max_bytes =
      not (has_lone value)
      && ltb 0 (length value)
      && leb (runtime.byte_length value) max_bytes
      && not (any is_control value)

  unfoldable pub encode : Text → Text → Result Text
  encode scope position =
      require (valid_part scope 128 && valid_part position 256) invalid
      >> require (leb (length (runtime.to_wire scope position)) 1036) invalid
      >> ok (runtime.to_wire scope position)

  -- The elements of the array, where they are what `encode` writes.
  abbrev read_wire : Text → Option (List Value) → Result Text
  read_wire scope (some (number (nat n) ∷ string s ∷ string position ∷ [])) =
      if (n == 1) && (s === scope) && valid_part position 256 then ok position else err invalid
  read_wire scope _ = err invalid

  unfoldable pub decode : Text → Text → Result Text
  decode wire scope =
      require
        (ltb 0 (length wire)
          && leb (length wire) 1036
          && every is_url_char wire
          && valid_part scope 128)
        invalid
      >> read_wire scope (runtime.from_wire wire)

  unfoldable pub position : After → Text
  position a = runtime.iso_string a.at ++ (124 ∷ a.id)

  -- `after`
  unfoldable pub after : Text → Option After
  after value = elim (split_bar value) [
    | [] ↦ none
    | iso ∷ parts ↦ elim parts [
      | [] ↦ none
      | id ∷ more ↦
          if ltb 0 (length iso) && ltb 0 (length id) && (length more == 0)
          then elim (runtime.parse_date iso) [
            | none ↦ none
            | some t ↦
                if runtime.iso_string t === iso then some (record { at = t; id = id }) else none
          ]
          else none
    ]
  ]

  unfoldable pub start_of : Option Text → Text → Result (Option After)
  start_of none scope = ok none
  start_of (some cursor) scope = do
    value ← decode cursor scope
    elim (after value) [ none ↦ err invalid | some a ↦ ok (some a) ]

  -- `request`
  unfoldable pub request : Text → Option Text → Option Text → Result PageRequest
  request scope limit cursor = do
    page_size ← map_error (size limit) (λ e. invalid)
    start ← start_of cursor scope
    ok (record { limit = page_size; start_after = start })

  module _ {ℓ} {A : Type ℓ} where
    -- A page without rows has no last row; `window` takes one only of a page that is full.
    abbrev next_of : Text → (A → Text) → Option A → Result (Option Text)
    next_of scope at none = err invalid
    next_of scope at (some row) = do cursor ← encode scope (at row); ok (some cursor)

    unfoldable pub window : List A → ℕ → Text → (A → Text) → Result (Page A)
    window rows limit scope at =
        require (leb 1 limit && leb limit 100 && leb (length rows) (limit + 1)) invalid
        >> (if ltb limit (length rows)
            then (next_of scope at (last (take limit rows)) >>= λ cursor.
                ok (record { items = take limit rows; has_more = true; next_cursor = cursor }))
            else ok (record { items = take limit rows; has_more = false; next_cursor = none }))
