-- ===== src/Shared/Ids.antt =====
-- src/shared/id/value.ts: identifiers are canonical UUID strings, and `parse` reads them.
use n2f_nest.Prelude.{
  ℕ, ◌≡◌, refl, ap₂, inl, inr, Bool-cases, Bool, true, false, ◌&&◌, ◌||◌, List, [], ◌∷◌, arith, leb,
  ◌==◌, if◌then◌else◌, length,
}
use n2f_nest.Shared.Errors.{Result, ok, err, failure, Kind}
use n2f_nest.Shared.Text.{Text, is_digit, lower_unit, to_lower_case}
use n2f_nest.Shared.Values.{Value, undefined, string}

abbrev pub Identifier : Type 0
Identifier = Text

-- What the pattern `canonical` asks at each place.
pub data Slot : Type 0 where
  hex dash variant : Slot

abbrev pub is_hex : ℕ → Bool
is_hex c = is_digit c || (leb b'a' c && leb c b'f') || (leb b'A' c && leb c b'F')

-- `[89ab]`, in either case
abbrev pub is_variant : ℕ → Bool
is_variant c = c == b'8' || c == b'9' || c == b'a' || c == b'b' || c == b'A' || c == b'B'

abbrev pub fits : Slot → ℕ → Bool
fits hex c = is_hex c
fits dash c = c == b'-'
fits variant c = is_variant c

-- `[0-9a-f]{8}-[0-9a-f]{4}-[0-9a-f]{4}-[89ab][0-9a-f]{3}-[0-9a-f]{12}`
abbrev pub canonical : List Slot
canonical =
    hex ∷ hex ∷ hex ∷ hex ∷ hex ∷ hex ∷ hex ∷ hex ∷ dash ∷ hex ∷ hex ∷ hex ∷ hex ∷ dash ∷ hex ∷ hex
    ∷ hex ∷ hex ∷ dash ∷ variant ∷ hex ∷ hex ∷ hex ∷ dash ∷ hex ∷ hex ∷ hex ∷ hex ∷ hex ∷ hex ∷ hex
    ∷ hex ∷ hex ∷ hex ∷ hex ∷ hex ∷ []

matches : List Slot → Text → Bool
matches [] [] = true
matches [] (c ∷ cs) = false
matches (s ∷ ss) [] = false
matches (s ∷ ss) (c ∷ cs) = fits s c && matches ss cs

unfoldable pub is_canonical : Text → Bool
unfolding matches
is_canonical s = length s == 36 && matches canonical s

unfoldable pub parse : Value → Result Identifier
parse (string s) =
    if is_canonical s then ok (to_lower_case s) else err (failure Kind.invalid "id.invalid")
parse _ = err (failure Kind.invalid "id.invalid")

fits-lower_unit : (s : Slot) (c : ℕ) → fits s c ≡ true → fits s (lower_unit c) ≡ true
fits-lower_unit hex c h = ground arith
fits-lower_unit dash c h = ground arith
fits-lower_unit variant c h = ground arith

matches-to_lower_case :
    (ss : List Slot) (s : Text) → matches ss s ≡ true → matches ss (to_lower_case s) ≡ true
unfolding matches
matches-to_lower_case [] [] h = refl
matches-to_lower_case [] (c ∷ cs) h = cc
matches-to_lower_case (s ∷ ss) [] h = cc
matches-to_lower_case (s ∷ ss) (c ∷ cs) h =
    ground (arith, fits-lower_unit s c, matches-to_lower_case ss cs)

length-to_lower_case : (s : Text) → length (to_lower_case s) ≡ length s
length-to_lower_case [] = refl
length-to_lower_case (c ∷ cs) = omega (arith, length-to_lower_case cs)

lower_unit-lower_unit : (c : ℕ) → lower_unit (lower_unit c) ≡ lower_unit c
lower_unit-lower_unit c = ground arith

to_lower_case-to_lower_case : (s : Text) → to_lower_case (to_lower_case s) ≡ to_lower_case s
to_lower_case-to_lower_case [] = refl
to_lower_case-to_lower_case (c ∷ cs) =
    ap₂ ◌∷◌ (lower_unit-lower_unit c) (to_lower_case-to_lower_case cs)

-- A string that `parse` returned is canonical.
pub record IsId (i : Identifier) : Type 0 where
  pub is_canonical : is_canonical i ≡ true
  pub is_lower : to_lower_case i ≡ i

is_canonical-to_lower_case :
    (s : Text) → is_canonical s ≡ true → is_canonical (to_lower_case s) ≡ true
unfolding is_canonical
is_canonical-to_lower_case s h =
    ground (arith, length-to_lower_case s, matches-to_lower_case canonical s)

-- What `parse` returns is canonical and in lower case.
pub parse-IsId : (v : Value) (i : Identifier) → parse v ≡ ok i → IsId i
parse-IsId (string s) i h = elim (Bool-cases (is_canonical s)) [
  | inl good ↦
      let e : to_lower_case s ≡ i = unfold parse in ground arith in
      record {
        is_canonical = rw (← e) (is_canonical-to_lower_case s good);
        is_lower = rw (← e) (to_lower_case-to_lower_case s);
      }
  | inr bad ↦ absurd (unfold parse in ground arith)
]
parse-IsId undefined i h = unfold parse in cc
parse-IsId _ i h = unfold parse in cc

-- `parse` returns a canonical identifier in lower case as it is.
pub parse_of_IsId : (i : Identifier) → IsId i → parse (string i) ≡ ok i
unfolding parse
parse_of_IsId i h = rw (h.is_canonical, h.is_lower)
