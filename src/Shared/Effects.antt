-- ===== src/Shared/Effects.antt =====
-- Code that reads and changes a state, and may fail: an asynchronous method is run as one step of
-- such an action for each call that it awaits, and what it wrote before a failure stays written.
use n2f_nest.Prelude.{◌≡◌, refl}
use n2f_nest.Shared.Errors.{Failure, Result, ok, err}

abbrev pub Action {ℓ} : Type ℓ → Type ℓ → Type ℓ
Action S A = S → Result A × S

module _ {ℓ} {S A : Type ℓ} where
  abbrev pub pure : A → Action S A
  pure a s = (ok a, s)

  abbrev pub lift : Result A → Action S A
  lift r s = (r, s)

  -- A failure of `m` is answered by `f` of it.
  abbrev pub mapped : (Failure → Failure) → Result A × S → Result A × S
  mapped f (ok a, s) = (ok a, s)
  mapped f (err e, s) = (err (f e), s)

  abbrev pub on_error : (Failure → Failure) → Action S A → Action S A
  on_error f m s = mapped f (m s)

module _ {ℓ} {S A B : Type ℓ} where
  abbrev pub continue : Result A × S → (A → Action S B) → Result B × S
  continue (ok a, s) f = f a s
  continue (err e, s) f = (err e, s)

  infixl 5 ◌>>=◌ ◌>>◌
  unfoldable pub ◌>>=◌ : Action S A → (A → Action S B) → Action S B
  ◌>>=◌ m f s = continue (m s) f

  abbrev pub ◌>>◌ : Action S A → Action S B → Action S B
  m >> k = m >>= λ _. k

continue_cases {ℓ κ} :
    {S A B : Type ℓ} (P : Result B × S → Type κ) (r : Result A × S) (f : A → Action S B)
    → ((e : Failure) → r.0 ≡ err e → P (err e, r.1))
    → ((a : A) → r.0 ≡ ok a → P (f a r.1))
    → P (continue r f)
continue_cases P (ok a, s) f failed rest = rest a refl
continue_cases P (err e, s) f failed rest = failed e refl

-- To prove something of a sequence, prove it where the first part fails, and where the rest runs.
pub bind_cases {ℓ κ} :
    {S A B : Type ℓ} (P : Result B × S → Type κ) (m : Action S A) (f : A → Action S B) (s : S)
    → ((e : Failure) → (m s).0 ≡ err e → P (err e, (m s).1))
    → ((a : A) → (m s).0 ≡ ok a → P (f a (m s).1))
    → P ((m >>= f) s)
unfolding ◌>>=◌
bind_cases P m f s failed rest = continue_cases P (m s) f failed rest

-- The same where the first part is a plain result.
pub lift_cases {ℓ κ} :
    {S A B : Type ℓ} (P : Result B × S → Type κ) (r : Result A) (f : A → Action S B) (s : S)
    → ((e : Failure) → r ≡ err e → P (err e, s))
    → ((a : A) → r ≡ ok a → P (f a s))
    → P ((lift r >>= f) s)
unfolding ◌>>=◌
lift_cases P r f s failed rest = continue_cases P (r, s) f failed rest
