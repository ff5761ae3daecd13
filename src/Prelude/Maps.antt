-- ===== src/Prelude/Maps.antt =====
-- A JavaScript `Map`: an association list in insertion order, in which `set` keeps the place of a
-- key that is present and appends one that is not.
use Prim.Native.Nat.{ℕ}
use mathlib.Core.Path.{◌≡◌, refl}
use mathlib.Core.Logic.{◌↔◌, inl, inr}
use mathlib.Core.Bool.{Bool, true, false}
use mathlib.Core.Option.{Option, none, some}
use mathlib.Core.List.{List, [], ◌∷◌}
use native.Mathlib.Omega.{arith}
use n2f_nest.Prelude.Tests.{if◌then◌else◌, ◌==◌ as nat_beq, ==_iff, is_some, Bool-cases}
use n2f_nest.Prelude.Lists.{find}

-- A test of equality, as `===` is on the keys.
pub record Eq {ℓ} (A : Type ℓ) : Type ℓ where
  pub beq : A → A → Bool
  pub beq_iff : (a b : A) → (beq a b ≡ true) ↔ (a ≡ b)

infix 50 ◌===◌
abbrev pub ◌===◌ {ℓ} : {A : Type ℓ} ⦃e : Eq A⦄ → A → A → Bool
◌===◌ ⦃e⦄ = e.beq

instance abbrev pub nat_eq : Eq ℕ
nat_eq = record { beq = nat_beq; beq_iff = ==_iff }

abbrev pub Map {ℓ} : Type ℓ → Type ℓ → Type ℓ
Map K V = List (K × V)

module _ {ℓ} {K V : Type ℓ} where
  abbrev pub values : Map K V → List V
  values [] = []
  values ((k, v) ∷ m) = v ∷ values m

module _ {ℓ} {K V : Type ℓ} ⦃e : Eq K⦄ where
  unfoldable pub get : K → Map K V → Option V
  get k [] = none
  get k ((j, v) ∷ m) = if j === k then some v else get k m

  unfoldable pub set : K → V → Map K V → Map K V
  set k v [] = (k, v) ∷ []
  set k v ((j, w) ∷ m) = if j === k then (j, v) ∷ m else (j, w) ∷ set k v m

  unfoldable pub delete : K → Map K V → Map K V
  delete k [] = []
  delete k ((j, w) ∷ m) = let rest = delete k m in if j === k then rest else (j, w) ∷ rest

  abbrev pub has : K → Map K V → Bool
  has k m = is_some (get k m)

  pub get-set :
      (k j : K) (v : V) (m : Map K V) → get j (set k v m) ≡ (if k === j then some v else get j m)
  unfolding get set
  get-set k j v [] = refl
  get-set k j v ((i, w) ∷ m) =
      ground (arith, e.beq_iff k j, e.beq_iff i k, e.beq_iff i j, get-set k j v m)

  pub get-delete :
      (k j : K) (m : Map K V) → get j (delete k m) ≡ (if k === j then none else get j m)
  unfolding get delete
  get-delete k j [] = ground arith
  get-delete k j ((i, w) ∷ m) =
      ground (arith, e.beq_iff k j, e.beq_iff i k, e.beq_iff i j, get-delete k j m)

  -- Writing back what a key held undoes a write.
  pub set-set_back : (k : K) (v w : V) (m : Map K V) → get k m ≡ some v → set k v (set k w m) ≡ m
  unfolding get set
  set-set_back k v w [] h = cc
  set-set_back k v w ((i, u) ∷ m) h = ground (arith, e.beq_iff i k, set-set_back k v w m)

  -- Deleting a key that was new undoes a write.
  pub delete-set_new : (k : K) (w : V) (m : Map K V) → get k m ≡ none → delete k (set k w m) ≡ m
  unfolding get set delete
  delete-set_new k w [] h = ground (arith, e.beq_iff k k)
  delete-set_new k w ((i, u) ∷ m) h =
      ground (arith, e.beq_iff i k, delete-set_new k w m, delete_absent k m)
    where
      delete_absent : (k : K) (m : Map K V) → get k m ≡ none → delete k m ≡ m
      delete_absent k [] h = refl
      delete_absent k ((i, u) ∷ m) h = ground (arith, delete_absent k m)

  -- No key stands twice, as in every `Map`.
  abbrev pub Distinct : Map K V → Type ℓ
  Distinct [] = Unit
  Distinct ((k, v) ∷ m) = (get k m ≡ none) × Distinct m

  pub set-Distinct : (k : K) (v : V) (m : Map K V) → Distinct m → Distinct (set k v m)
  unfolding get set
  set-Distinct k v [] d = (refl, tt)
  set-Distinct k v ((i, w) ∷ m) d = elim (Bool-cases (i === k)) [
    | inl hit ↦ rw hit d
    | inr miss ↦
        rw miss
          (ground (arith, get-set k i v m, e.beq_iff i k, e.beq_iff k i), set-Distinct k v m d.1)
  ]

  pub delete-Distinct : (k : K) (m : Map K V) → Distinct m → Distinct (delete k m)
  unfolding get delete
  delete-Distinct k [] d = tt
  delete-Distinct k ((i, w) ∷ m) d = elim (Bool-cases (i === k)) [
    | inl hit ↦ rw hit (delete-Distinct k m d.1)
    | inr miss ↦ rw miss (ground (arith, get-delete k i m, d.0), delete-Distinct k m d.1)
  ]

  -- A search of the values that finds nothing says so of each entry.
  pub find-values-none :
      (p : V → Bool) (k : K) (v : V) (m : Map K V)
      → find p (values m) ≡ none
      → get k m ≡ some v
      → p v ≡ false
  unfolding get
  find-values-none p k v [] h g = cc
  find-values-none p k v ((i, w) ∷ m) h g = ground (arith, find-values-none p k v m)

  -- A search of the values that finds something finds an entry that passes the test.
  pub find-values-some :
      (p : V → Bool) (m : Map K V) {v : V}
      → Distinct m
      → find p (values m) ≡ some v
      → (k : K) × (get k m ≡ some v) × (p v ≡ true)
  unfolding get
  find-values-some p [] d h = cc
  find-values-some p ((i, w) ∷ m) {v} d h = elim (Bool-cases (p w)) [
    | inl pass ↦ let here : some w ≡ some v = rw pass at h in (i, ground (arith, e.beq_iff i i), cc)
    | inr fail ↦
        let (k, found, passes) = find-values-some p m d.1 (rw fail at h) in
        (k, ground (arith, e.beq_iff i k, d.0), passes)
  ]
