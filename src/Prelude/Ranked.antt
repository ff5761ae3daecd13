-- ===== src/Prelude/Ranked.antt =====
-- `Array.prototype.sort` by a comparison of keys: a stable sort, by insertion.
use mathlib.Core.Path.{◌≡◌, refl}
use mathlib.Core.Logic.{◌≢◌, inl, inr}
use mathlib.Core.List.{List, [], ◌∷◌, Permᴰ}
use mathlib.Core.List.Permᴰ
use mathlib.Core.Bool.{Bool, true, false}
use n2f_nest.Prelude.Tests.{if◌then◌else◌, Bool-cases}
use n2f_nest.Prelude.Lists.{All}
use n2f_nest.Prelude.Sort.{All-weaken}

-- A strict order: `later x y` says that the comparison of `x` with `y` is positive.
pub record IsLater {ℓ} {K : Type ℓ} (later : K → K → Bool) : Type ℓ where
  pub irreflexive : (x : K) → later x x ≡ false
  pub transitive : (x y z : K) → later x y ≡ true → later y z ≡ true → later x z ≡ true
  pub connected : (x y : K) → later x y ≡ false → later y x ≡ false → x ≡ y

module _ {ℓ κ} {A : Type ℓ} {K : Type κ} (later : K → K → Bool) (key : A → K) where
  -- Before the first element that is not earlier.
  abbrev pub insert_by : A → List A → List A
  insert_by x [] = x ∷ []
  insert_by x (y ∷ ys) =
      let rest = insert_by x ys in if later (key x) (key y) then y ∷ rest else x ∷ y ∷ ys

  abbrev pub sort_by : List A → List A
  sort_by [] = []
  sort_by (x ∷ xs) = insert_by x (sort_by xs)

  -- Each element is later than those before it.
  abbrev pub Ascending : List A → Type 0
  Ascending [] = Unit
  Ascending (x ∷ xs) = Ascending xs × All (λ y. later (key y) (key x) ≡ true) xs

  -- No two elements have the same key.
  abbrev pub Unrepeated : List A → Type κ
  Unrepeated [] = Unit
  Unrepeated (x ∷ xs) = Unrepeated xs × All (λ y. key x ≢ key y) xs

  insert_by-Perm : (x : A) (xs : List A) → Permᴰ (x ∷ xs) (insert_by x xs)
  insert_by-Perm x [] = Permᴰ.refl (x ∷ [])
  insert_by-Perm x (y ∷ ys) = elim (Bool-cases (later (key x) (key y))) [
    | inl e ↦ rw e (Permᴰ.trans (Permᴰ.swap refl refl) (Permᴰ.cons refl (insert_by-Perm x ys)))
    | inr e ↦ rw e (Permᴰ.refl (x ∷ y ∷ ys))
  ]

  pub sort_by-Perm : (xs : List A) → Permᴰ xs (sort_by xs)
  sort_by-Perm [] = Permᴰ.nil
  sort_by-Perm (x ∷ xs) =
      Permᴰ.trans (Permᴰ.cons refl (sort_by-Perm xs)) (insert_by-Perm x (sort_by xs))

module _ {ℓ κ μ} {A : Type ℓ} {K : Type κ} (later : K → K → Bool) (key : A → K)
    (P : A → Type μ) where
  All-insert_by : (x : A) (xs : List A) → P x → All P xs → All P (insert_by later key x xs)
  All-insert_by x [] p ps = (p, tt)
  All-insert_by x (y ∷ ys) p (q, qs) = elim (Bool-cases (later (key x) (key y))) [
    | inl e ↦ rw e (q, All-insert_by x ys p qs)
    | inr e ↦ rw e (p, (q, qs))
  ]

  All-sort_by : (xs : List A) → All P xs → All P (sort_by later key xs)
  All-sort_by [] ps = tt
  All-sort_by (x ∷ xs) (p, ps) = All-insert_by x (sort_by later key xs) p (All-sort_by xs ps)

module _ {ℓ κ} {A : Type ℓ} {K : Type κ} (later : K → K → Bool) (key : A → K)
    (order : IsLater later) where
  insert_by-Ascending :
      (x : A) (xs : List A)
      → Ascending later key xs
      → All (λ y. key x ≢ key y) xs
      → Ascending later key (insert_by later key x xs)
  insert_by-Ascending x [] s d = (tt, tt)
  insert_by-Ascending x (y ∷ ys) (s, above) (other, others) =
      elim (Bool-cases (later (key x) (key y))) [
        | inl e ↦ rw e (
          insert_by-Ascending x ys s others,
          All-insert_by later key (λ z. later (key z) (key y) ≡ true) x ys e above,
        )
        | inr e ↦
            let first : later (key y) (key x) ≡ true = elim (Bool-cases (later (key y) (key x))) [
              | inl f ↦ f
              | inr f ↦ absurd (other (order.connected (key x) (key y) e f))
            ] in
            rw e (
              (s, above),
              (
                first,
                All-weaken (λ z. later (key z) (key y) ≡ true)
                    (λ z h. order.transitive (key z) (key y) (key x) h first) ys above,
              ),
            )
      ]

  pub sort_by-Ascending :
      (xs : List A) → Unrepeated later key xs → Ascending later key (sort_by later key xs)
  sort_by-Ascending [] u = tt
  sort_by-Ascending (x ∷ xs) (u, others) =
      insert_by-Ascending x (sort_by later key xs) (sort_by-Ascending xs u)
        (All-sort_by later key (λ y. key x ≢ key y) xs others)
