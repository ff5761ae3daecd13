-- ===== src/Prelude/Sort.antt =====
-- `Array.prototype.sort` by a numeric key: a stable sort, by insertion.
use Prim.Native.Nat.{ℕ, zero, suc, ◌≤◌}
use mathlib.Core.Path.{◌≡◌, refl, ap}
use mathlib.Core.Logic.{inl, inr}
use mathlib.Core.List.{List, [], ◌∷◌, ◌++◌, Permᴰ}
use mathlib.Core.List.Permᴰ
use mathlib.Core.Bool.{Bool, true}
use native.Mathlib.Omega.{arith}
use n2f_nest.Prelude.Tests.{if◌then◌else◌, leb, leb→le, Bool-cases}
use n2f_nest.Prelude.Lists.{All, take, drop, select}

module _ {ℓ} {A : Type ℓ} (key : A → ℕ) where
  -- Before the first element whose key is not less.
  abbrev pub insert : A → List A → List A
  insert x [] = x ∷ []
  insert x (y ∷ ys) = let rest = insert x ys in if leb (key x) (key y) then x ∷ y ∷ ys else y ∷ rest

  abbrev pub sort : List A → List A
  sort [] = []
  sort (x ∷ xs) = insert x (sort xs)

  -- No element has a smaller key than one before it.
  abbrev pub Sorted : List A → Type 0
  Sorted [] = Unit
  Sorted (x ∷ xs) = Sorted xs × All (λ y. key x ≤ key y) xs

module _ {ℓ κ} {A : Type ℓ} (P : A → Type κ) where
  pub All-insert : (key : A → ℕ) (x : A) (xs : List A) → P x → All P xs → All P (insert key x xs)
  All-insert key x [] p ps = (p, tt)
  All-insert key x (y ∷ ys) p (q, qs) = elim (Bool-cases (leb (key x) (key y))) [
    | inl e ↦ rw e (p, (q, qs))
    | inr e ↦ rw e (q, All-insert key x ys p qs)
  ]

  pub All-sort : (key : A → ℕ) (xs : List A) → All P xs → All P (sort key xs)
  All-sort key [] ps = tt
  All-sort key (x ∷ xs) (p, ps) = All-insert key x (sort key xs) p (All-sort key xs ps)

  pub All-take : (n : ℕ) (xs : List A) → All P xs → All P (take n xs)
  All-take zero xs ps = tt
  All-take (suc n) [] ps = tt
  All-take (suc n) (x ∷ xs) (p, ps) = (p, All-take n xs ps)

  pub All-select :
      (t : A → Bool) → ((x : A) → t x ≡ true → P x) → (xs : List A) → All P (select t xs)
  All-select t holds [] = tt
  All-select t holds (x ∷ xs) = elim (Bool-cases (t x)) [
    | inl e ↦ rw e (holds x e, All-select t holds xs)
    | inr e ↦ rw e (All-select t holds xs)
  ]

  pub All-drop : (n : ℕ) (xs : List A) → All P xs → All P (drop n xs)
  All-drop zero xs ps = ps
  All-drop (suc n) [] ps = tt
  All-drop (suc n) (x ∷ xs) (p, ps) = All-drop n xs ps

pub All-weaken {ℓ κ μ} :
    {A : Type ℓ} (P : A → Type κ) {Q : A → Type μ}
    → ((x : A) → P x → Q x)
    → (xs : List A) → All P xs
    → All Q xs
All-weaken P f [] ps = tt
All-weaken P f (x ∷ xs) (p, ps) = (f x p, All-weaken P f xs ps)

module _ {ℓ} {A : Type ℓ} (key : A → ℕ) where
  Sorted-insert : (x : A) (xs : List A) → Sorted key xs → Sorted key (insert key x xs)
  Sorted-insert x [] s = (tt, tt)
  Sorted-insert x (y ∷ ys) (s, above) = elim (Bool-cases (leb (key x) (key y))) [
    | inl e ↦
        let le = leb→le (key x) (key y) e in
        rw e
          ((s, above), (le, All-weaken (λ z. key y ≤ key z) (λ z h. omega (arith, le, h)) ys above))
    | inr e ↦
        rw e (Sorted-insert x ys s, All-insert (λ z. key y ≤ key z) key x ys (ground arith) above)
  ]

  pub sort-Sorted : (xs : List A) → Sorted key (sort key xs)
  sort-Sorted [] = tt
  sort-Sorted (x ∷ xs) = Sorted-insert x (sort key xs) (sort-Sorted xs)

  insert-perm : (x : A) (xs : List A) → Permᴰ (x ∷ xs) (insert key x xs)
  insert-perm x [] = Permᴰ.refl (x ∷ [])
  insert-perm x (y ∷ ys) = elim (Bool-cases (leb (key x) (key y))) [
    | inl e ↦ rw e (Permᴰ.refl (x ∷ y ∷ ys))
    | inr e ↦ rw e (Permᴰ.trans (Permᴰ.swap refl refl) (Permᴰ.cons refl (insert-perm x ys)))
  ]

  -- Sorting rearranges.
  pub sort-perm : (xs : List A) → Permᴰ xs (sort key xs)
  sort-perm [] = Permᴰ.nil
  sort-perm (x ∷ xs) = Permᴰ.trans (Permᴰ.cons refl (sort-perm xs)) (insert-perm x (sort key xs))

  pub Sorted-take : (n : ℕ) (xs : List A) → Sorted key xs → Sorted key (take n xs)
  Sorted-take zero xs s = tt
  Sorted-take (suc n) [] s = tt
  Sorted-take (suc n) (x ∷ xs) (s, above) =
      (Sorted-take n xs s, All-take (λ y. key x ≤ key y) n xs above)

  -- What is cut off a sorted list is not before what is kept.
  pub take-before-drop :
      (n : ℕ) (xs : List A)
      → Sorted key xs
      → All (λ x. All (λ y. key x ≤ key y) (drop n xs)) (take n xs)
  take-before-drop zero xs s = tt
  take-before-drop (suc n) [] s = tt
  take-before-drop (suc n) (x ∷ xs) (s, above) =
      (All-drop (λ y. key x ≤ key y) n xs above, take-before-drop n xs s)

pub take-append-drop {ℓ} : {A : Type ℓ} (n : ℕ) (xs : List A) → (take n xs ++ drop n xs) ≡ xs
take-append-drop zero xs = refl
take-append-drop (suc n) [] = refl
take-append-drop (suc n) (x ∷ xs) = ap (λ ys. x ∷ ys) (take-append-drop n xs)
