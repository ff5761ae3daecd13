-- ===== src/Shared/Errors.antt =====
-- src/shared/errors: failure kinds, failures and results. A failure's message, fields, details and
-- cause are text for people and logs, which no modelled code reads; its kind and type stay.
use text.Mathlib.Text.{◌==◌ as str_eq}
use n2f_nest.Prelude.{
  ◌≡◌, ◌⊎◌, inl, inr, refl, subst, Bool, true, false, String, Option, none, some, arith,
}

-- KINDS of kind.ts.
pub data Kind : Type 0 where
  internal invalid not_found conflict unauthenticated forbidden rate_limited unavailable timeout
        canceled :
      Kind

pub record Failure : Type 0 where
  pub kind : Kind
  pub type : Option String

-- `failure` with a type, which is `typedFailure` too; no type given at the calls is empty.
abbrev pub failure : Kind → String → Failure
failure k t = record { kind = k; type = some t }

-- `failure` without a type.
abbrev pub untyped_failure : Kind → Failure
untyped_failure k = record { kind = k; type = none }

-- `error.type === t`
abbrev pub has_type : Failure → String → Bool
has_type f t = elim f.type [ none ↦ false | some s ↦ str_eq s t ]

-- Result of result.ts.
pub data Result {ℓ} (T : Type ℓ) : Type ℓ where
  err : Failure → Result T
  ok : T → Result T

-- `result.ok`
abbrev pub is_ok {ℓ} : {T : Type ℓ} → Result T → Bool
is_ok (err error) = false
is_ok (ok value) = true

-- `mapError(result, fn)`
abbrev pub map_error {ℓ} : {T : Type ℓ} → Result T → (Failure → Failure) → Result T
map_error (err error) f = err (f error)
map_error (ok value) f = ok value

-- `if (test) return err(e)`
abbrev pub refuse : Bool → Failure → Result (Unit {0})
refuse test e = elim test [ false ↦ ok tt | true ↦ err e ]

-- `if (!test) return err(e)`
abbrev pub require : Bool → Failure → Result (Unit {0})
require test e = elim test [ false ↦ err e | true ↦ ok tt ]

-- `if (!result.ok) return result`, and then the rest.
infixl 5 ◌>>=◌ ◌>>◌
abbrev pub ◌>>=◌ {ℓ κ} :
    {T : Type ℓ} {U : Type κ} (result : Result T) (rest : T → Result U) → Result U
◌>>=◌ (err error) rest = err error
◌>>=◌ (ok value) rest = rest value

abbrev pub ◌>>◌ {κ} : {U : Type κ} (check : Result (Unit {0})) (rest : Result U) → Result U
check >> rest = check >>= λ passed. rest

-- What holds of a result's value, if there is one.
abbrev pub Ensures {ℓ κ} : {A : Type ℓ} → (A → Type κ) → Result A → Type κ
Ensures P (ok a) = P a
Ensures P (err e) = Unit

pub ensured {ℓ κ} :
    {A : Type ℓ} (P : A → Type κ) (r : Result A) {a : A} → Ensures P r → r ≡ ok a → P a
ensured P (ok a) p h = subst P (ground arith) p
ensured P (err e) p h = cc

pub map_error-ok {ℓ} :
    {A : Type ℓ} (r : Result A) (f : Failure → Failure) {a : A} → map_error r f ≡ ok a → r ≡ ok a
map_error-ok (ok a) f h = h
map_error-ok (err e) f h = cc

-- To split on a result and keep the equation.
pub Result-cases :
    {T : Type 0} (r : Result T) → ((a : T) × (r ≡ ok a)) ⊎ ((e : Failure) × (r ≡ err e))
Result-cases (ok a) = inl (a, refl)
Result-cases (err e) = inr (e, refl)
