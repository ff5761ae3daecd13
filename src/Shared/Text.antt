-- ===== src/Shared/Text.antt =====
-- Strings as their UTF-16 code units, which is what `length`, `trim` and the patterns go by.
use Prim.Native.Char.{code}
use mathlib.Core.List.{reverse}
use n2f_nest.Prelude.{
  ℕ, ◌+◌, ◌≡◌, ◌↔◌, refl, map, Bool, true, false, ◌&&◌, ◌||◌, List, [], ◌∷◌, String, arith, leb,
  ◌==◌, if◌then◌else◌, length, every,
}
use n2f_nest.Prelude.Maps.{Eq}

abbrev pub Text : Type 0
Text = List ℕ

-- The code units of an ASCII literal.
abbrev pub codes : String → Text
codes String.[] = []
codes (String.◌∷◌ c s) = code c ∷ codes s

abbrev pub text_beq : Text → Text → Bool
text_beq [] [] = true
text_beq [] (y ∷ ys) = false
text_beq (x ∷ xs) [] = false
text_beq (x ∷ xs) (y ∷ ys) = (x == y) && text_beq xs ys

abbrev pub is_lower : ℕ → Bool
is_lower c = leb b'a' c && leb c b'z'

abbrev pub is_digit : ℕ → Bool
is_digit c = leb b'0' c && leb c b'9'

-- `[a-z0-9_.-]`
abbrev pub is_name_char : ℕ → Bool
is_name_char c = is_lower c || is_digit c || c == b'_' || c == b'.' || c == b'-'

-- `/^[a-z][a-z0-9_.-]{0,max}$/`
unfoldable pub is_name : ℕ → Text → Bool
is_name max [] = false
is_name max (c ∷ cs) = is_lower c && every is_name_char cs && leb (length cs) max

text_beq-eq : (a b : Text) → text_beq a b ≡ true → a ≡ b
text_beq-eq [] [] h = refl
text_beq-eq [] (y ∷ ys) h = cc
text_beq-eq (x ∷ xs) [] h = cc
text_beq-eq (x ∷ xs) (y ∷ ys) h = ground (arith, text_beq-eq xs ys)

text_beq_refl : (a : Text) → text_beq a a ≡ true
text_beq_refl [] = refl
text_beq_refl (x ∷ xs) = ground (arith, text_beq_refl xs)

pub text_beq_iff : (a b : Text) → (text_beq a b ≡ true) ↔ (a ≡ b)
text_beq_iff a b = (text_beq-eq a b, λ e. rw e (text_beq_refl b))

instance abbrev pub text_eq : Eq Text
text_eq = record { beq = text_beq; beq_iff = text_beq_iff }

-- The white space and line terminators that `trim` removes.
abbrev pub is_space : ℕ → Bool
is_space c =
    (leb 9 c && leb c 13)
    || c == 32
    || c == 0xa0
    || c == 0x1680
    || (leb 0x2000 c && leb c 0x200a)
    || c == 0x2028
    || c == 0x2029
    || c == 0x202f
    || c == 0x205f
    || c == 0x3000
    || c == 0xfeff

unfoldable pub trim_start : Text → Text
trim_start [] = []
trim_start (c ∷ cs) = let rest = trim_start cs in if is_space c then rest else c ∷ cs

-- `value.trim()`
unfoldable pub trim : Text → Text
unfolding trim_start
trim s = reverse (trim_start (reverse (trim_start s)))

-- `value.toLowerCase()`: exact on ASCII, and on the one unit beyond it (KELVIN SIGN) whose lower
-- case is ASCII. The lower case of any other unit is not ASCII, as the unit itself is not.
abbrev pub lower_unit : ℕ → ℕ
lower_unit c = if leb b'A' c && leb c b'Z' then c + 32 else if c == 0x212a then b'k' else c

abbrev pub to_lower_case : Text → Text
to_lower_case = map lower_unit
