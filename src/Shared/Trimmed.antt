-- ===== src/Shared/Trimmed.antt =====
-- Lemmas on `trim`.
use mathlib.Core.List.{reverse, reverse-cons, reverse-append, reverse-reverse}
use n2f_nest.Prelude.{
  ℕ, ◌≡◌, refl, inl, inr, Bool, true, false, not, [], ◌∷◌, ◌++◌, arith, Bool-cases, every,
}
use n2f_nest.Shared.Text.{Text, is_space, trim_start, trim}

-- It does not begin with white space.
abbrev IsStarted : Text → Type 0
IsStarted [] = Unit
IsStarted (c ∷ cs) = is_space c ≡ false

trim_start-IsStarted : (s : Text) → IsStarted (trim_start s)
unfolding trim_start
trim_start-IsStarted [] = tt
trim_start-IsStarted (c ∷ cs) = elim (Bool-cases (is_space c)) [
  | inl e ↦ rw e (trim_start-IsStarted cs)
  | inr e ↦ rw e e
]

trim_start_of_IsStarted : (s : Text) → IsStarted s → trim_start s ≡ s
unfolding trim_start
trim_start_of_IsStarted [] h = refl
trim_start_of_IsStarted (c ∷ cs) h = rw h refl

trim_start-append :
    (s : Text) (c : _)
    → is_space c ≡ false
    → trim_start (s ++ (c ∷ [])) ≡ (trim_start s ++ (c ∷ []))
unfolding trim_start
trim_start-append [] c h = rw h refl
trim_start-append (d ∷ ds) c h = elim (Bool-cases (is_space d)) [
  | inl e ↦ rw e (trim_start-append ds c h)
  | inr e ↦ rw e refl
]

-- `trim` after `trim_start`.
abbrev trim_end : Text → Text
trim_end s = reverse (trim_start (reverse s))

trim_end-IsStarted : (s : Text) → IsStarted s → IsStarted (trim_end s)
trim_end-IsStarted [] h = unfold trim_start in tt
trim_end-IsStarted (c ∷ cs) h =
    rw
      (
        reverse-cons c cs,
        trim_start-append (reverse cs) c h,
        reverse-append (trim_start (reverse cs)) (c ∷ []),
      )
      h

pub trim-trim : (s : Text) → trim (trim s) ≡ trim s
unfolding trim
trim-trim s =
    let started = trim_end-IsStarted (trim_start s) (trim_start-IsStarted s) in
    rw
      (
        trim_start_of_IsStarted (trim_end (trim_start s)) started,
        reverse-reverse (trim_start (reverse (trim_start s))),
        trim_start_of_IsStarted (trim_start (reverse (trim_start s)))
            (trim_start-IsStarted (reverse (trim_start s))),
      )
      refl

every-append :
    (p : ℕ → Bool) (s t : Text) → every p s ≡ true → every p t ≡ true → every p (s ++ t) ≡ true
every-append p [] t h k = k
every-append p (c ∷ cs) t h k = ground (arith, every-append p cs t)

every-reverse : (p : ℕ → Bool) (s : Text) → every p s ≡ true → every p (reverse s) ≡ true
every-reverse p [] h = refl
every-reverse p (c ∷ cs) h =
    rw (reverse-cons c cs)
      (every-append p (reverse cs) (c ∷ []) (every-reverse p cs (ground arith)) (ground arith))

-- A unit that is not white space.
abbrev pub is_solid : ℕ → Bool
is_solid c = not (is_space c)

solid-IsStarted : (s : Text) → every is_solid s ≡ true → IsStarted s
solid-IsStarted [] h = tt
solid-IsStarted (c ∷ cs) h = ground arith

-- A text without white space is trimmed.
pub trim-solid : (s : Text) → every is_solid s ≡ true → trim s ≡ s
unfolding trim
trim-solid s h =
    rw
      (
        trim_start_of_IsStarted s (solid-IsStarted s h),
        trim_start_of_IsStarted (reverse s)
            (solid-IsStarted (reverse s) (every-reverse is_solid s h)),
      )
      (reverse-reverse s)
