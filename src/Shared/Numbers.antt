-- ===== src/Shared/Numbers.antt =====
-- JavaScript numbers as the backend tests them, and the version tokens of src/shared/version.
use n2f_nest.Prelude.{ℕ, ◌^◌, ◌+◌, ◌-◌, Bool, true, false, ◌&&◌, leb, ltb}

-- A number is an integer from 0, `negative n` that is -(n + 1), or `inexact`: a fraction, an
-- infinity or NaN, which every modelled test refuses before it computes.
pub data Number : Type 0 where
  nat : ℕ → Number
  negative : ℕ → Number
  inexact : Number

abbrev pub max_safe_integer : ℕ
max_safe_integer = 2 ^ 53 - 1

abbrev pub is_safe_integer : Number → Bool
is_safe_integer (nat n) = leb n max_safe_integer
is_safe_integer (negative n) = leb (n + 1) max_safe_integer
is_safe_integer inexact = false

-- `value >= k` and `value <= k` for an integer value; an inexact value is refused elsewhere.
abbrev pub at_least : ℕ → Number → Bool
at_least k (nat n) = leb k n
at_least k _ = false

-- The value of a number that passed `is_safeInteger` and `value >= 0`.
abbrev pub to_nat : Number → ℕ
to_nat (nat n) = n
to_nat _ = 0

-- Version, UNSAVED, FIRST and `isStoredVersion` of src/shared/version/index.ts.
abbrev pub Version : Type 0
Version = ℕ

abbrev pub unsaved : Version
unsaved = 0

abbrev pub first : Version
first = 1

unfoldable pub is_stored_version : Number → Bool
is_stored_version value = is_safe_integer value && at_least first value

-- `a > b`; a number that is not exact is refused before it is compared.
abbrev pub exceeds : Number → Number → Bool
exceeds (nat a) (nat b) = ltb b a
exceeds (nat a) (negative b) = true
exceeds (negative a) (nat b) = false
exceeds (negative a) (negative b) = ltb a b
exceeds inexact b = false
exceeds (nat a) inexact = false
exceeds (negative a) inexact = false
