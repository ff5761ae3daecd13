-- ===== src/Shared/Walk.antt =====
-- Following the positions of last rows through the pages of `keysetPage` (src/shared/pagination/index.ts).
use n2f_nest.Prelude.{
  ℕ, zero, suc, ◌+◌, ◌-◌, ◌≤◌, ◌<◌, ◌≡◌, refl, sym, subst, ap, ap₂, ◌∙◌, inl, inr, Bool, true,
  false, Option, none, some, List, [], ◌∷◌, ◌++◌, ltb, length, take, drop, select, All, arith,
  if◌then◌else◌, Bool-cases, length-drop,
}
use n2f_nest.Prelude.Ranked.{
  insert_by, sort_by, Ascending, Unrepeated, sort_by-Ascending, sort_by-Perm,
}
use mathlib.Core.List.{Permᴰ}
use n2f_nest.Prelude.Sort.{All-take, All-select, take-append-drop}
use n2f_nest.Shared.Pagination.{After, is_later, is_past, keyset_page}
use n2f_nest.Shared.Pages.{is_later-IsLater}

module _ {ℓ} {A : Type ℓ} (key : A → After) where
  abbrev pub last_or : A → List A → A
  last_or x [] = x
  last_or x (y ∷ ys) = last_or y ys

  abbrev past : A → List A → List A
  past a = select (is_past key (some (key a)))

  abbrev Rising : List A → Type 0
  Rising = Ascending is_later key

  -- All of a list that lies past an element is kept.
  past_everything :
      (a : A) (ys : List A) → All (λ y. is_later (key y) (key a) ≡ true) ys → past a ys ≡ ys
  past_everything a [] h = refl
  past_everything a (y ∷ ys) (h, hs) = rw h (ap (λ zs. y ∷ zs) (past_everything a ys hs))

  last-All {κ} : (P : A → Type κ) (x : A) (ys : List A) → P x → All P ys → P (last_or x ys)
  last-All P x [] p ps = p
  last-All P x (y ∷ ys) p (q, qs) = last-All P y ys q qs

  not_past : (a b : A) → is_later (key a) (key b) ≡ true → is_later (key b) (key a) ≡ false
  not_past a b h = elim (Bool-cases (is_later (key b) (key a))) [
    | inl k ↦ absurd (
        cc (
          is_later-IsLater.transitive (key a) (key b) (key a) h k,
          is_later-IsLater.irreflexive (key a),
        ))
    | inr k ↦ k
  ]

  -- What is past the last row of a page is what follows the page.
  past-last :
      (n : ℕ) (x : A) (ys : List A)
      → Rising (x ∷ ys)
      → past (last_or x (take n ys)) (x ∷ ys) ≡ drop n ys
  past-last zero x ys (s, above) =
      rw (is_later-IsLater.irreflexive (key x)) (past_everything x ys above)
  past-last (suc n) x [] (s, above) = rw (is_later-IsLater.irreflexive (key x)) refl
  past-last (suc n) x (y ∷ ys) (s, above) =
      let l = last_or y (take n ys) in
      let (first, rest) = above in
      let later =
        last-All (λ z. is_later (key z) (key x) ≡ true) y (take n ys) first
          (All-take (λ z. is_later (key z) (key x) ≡ true) n ys rest) in
      rw (not_past l x later) (past-last n y ys s)

  All-select_sub :
      (p q : A → Bool) (ys : List A)
      → All (λ y. q y ≡ true → p y ≡ true) ys
      → select q (select p ys) ≡ select q ys
  All-select_sub p q [] h = refl
  All-select_sub p q (y ∷ ys) (h, hs) = elim (Bool-cases (p y)) [
    | inl e ↦ rw e (ap (λ zs. if q y then y ∷ zs else zs) (All-select_sub p q ys hs))
    | inr e ↦ elim (Bool-cases (q y)) [
      | inl f ↦ absurd (cc (e, h f))
      | inr f ↦ rw (e, f) (All-select_sub p q ys hs)
    ]
  ]

  All-each {κ} : (P : A → Type κ) → ((y : A) → P y) → (ys : List A) → All P ys
  All-each P f [] = tt
  All-each P f (y ∷ ys) = (f y, All-each P f ys)

  past_past :
      (a : Option After) (l : A)
      → is_past key a l ≡ true
      → (y : A) → is_past key (some (key l)) y ≡ true
      → is_past key a y ≡ true
  past_past none l h y k = refl
  past_past (some a) l h y k = is_later-IsLater.transitive (key y) (key l) a k h

  -- Past the last row of a page, the rows are what follows the page in what is past its start.
  past-next :
      (sorted : List A) (a : Option After) (n : ℕ) (x : A) (ys : List A)
      → select (is_past key a) sorted ≡ (x ∷ ys)
      → Rising (x ∷ ys)
      → past (last_or x (take n ys)) sorted ≡ drop n ys
  past-next sorted a n x ys e s =
      let l = last_or x (take n ys) in
      let kept : All (λ z. is_past key a z ≡ true) (x ∷ ys) =
        subst (All (λ z. is_past key a z ≡ true)) e
          (All-select (λ z. is_past key a z ≡ true) (is_past key a) (λ z h. h) sorted) in
      let start : is_past key a l ≡ true =
        last-All (λ z. is_past key a z ≡ true) x (take n ys) kept.0
          (All-take (λ z. is_past key a z ≡ true) n ys kept.1) in
      sym (
        All-select_sub (is_past key a) (is_past key (some (key l))) sorted (
          All-each (λ y. is_past key (some (key l)) y ≡ true → is_past key a y ≡ true)
            (past_past a l start) sorted))
      ∙ ap (past l) e
      ∙ past-last n x ys s

  -- A page that holds more than the limit is cut, and what follows its last row is asked for next.
  abbrev pub follow : ℕ → (After → List A) → List A → List A
  follow limit next [] = []
  follow limit next (x ∷ xs) =
      if ltb limit (length (x ∷ xs))
      then take limit (x ∷ xs) ++ next (key (last_or x (take (limit - 1) xs)))
      else x ∷ xs

  -- The pages from a position on, so many at most.
  unfoldable pub walk : List A → ℕ → ℕ → Option After → List A
  walk rows limit zero a = []
  walk rows limit (suc n) a =
      follow limit (λ k. walk rows limit n (some k)) (keyset_page key rows limit a)

  take-take : (m : ℕ) (ys : List A) → take m (take (suc m) ys) ≡ take m ys
  take-take zero ys = refl
  take-take (suc m) [] = refl
  take-take (suc m) (y ∷ ys) = ap (λ zs. y ∷ zs) (take-take m ys)

  take_everything : (m : ℕ) (ys : List A) → length (take (suc m) ys) ≤ m → take (suc m) ys ≡ ys
  take_everything m [] h = refl
  take_everything zero (y ∷ ys) h = absurd (omega (arith, h))
  take_everything (suc m) (y ∷ ys) h = ap (λ zs. y ∷ zs) (take_everything m ys (omega (arith, h)))

  Rising-drop : (m : ℕ) (ys : List A) → Rising ys → Rising (drop m ys)
  Rising-drop zero ys s = s
  Rising-drop (suc m) [] s = tt
  Rising-drop (suc m) (y ∷ ys) (s, above) = Rising-drop m ys s

  take-empty : (k : ℕ) (ys : List A) → ys ≡ [] → take k ys ≡ []
  take-empty zero ys e = refl
  take-empty (suc k) [] e = refl
  take-empty (suc k) (y ∷ ys) e = absurd (cc e)

  one_less : (m : ℕ) → (suc m - 1) ≡ m
  one_less m = omega arith

  select_everything : (ys : List A) → select (λ y. true) ys ≡ ys
  select_everything [] = refl
  select_everything (y ∷ ys) = ap (λ zs. y ∷ zs) (select_everything ys)

  length-insert_by : (x : A) (ys : List A) → length (insert_by is_later key x ys) ≡ suc (length ys)
  length-insert_by x [] = refl
  length-insert_by x (y ∷ ys) = elim (Bool-cases (is_later (key x) (key y))) [
    | inl e ↦ rw e (ap suc (length-insert_by x ys))
    | inr e ↦ rw e refl
  ]

  length-sort_by : (ys : List A) → length (sort_by is_later key ys) ≡ length ys
  length-sort_by [] = refl
  length-sort_by (y ∷ ys) =
      length-insert_by y (sort_by is_later key ys) ∙ ap suc (length-sort_by ys)

  page-cons :
      (rows : List A) (m : ℕ) (a : Option After) (x : A) (ys : List A)
      → select (is_past key a) (sort_by is_later key rows) ≡ (x ∷ ys)
      → keyset_page key rows (suc m) a ≡ (x ∷ take (suc m) ys)
  page-cons rows m a x ys e = ap₂ (λ k zs. take k zs) two e
    where
      two : (suc m + 1) ≡ suc (suc m)
      two = omega arith

  walk-rest :
      (rows : List A) (m n : ℕ) (a : Option After) (rest : List A)
      → select (is_past key a) (sort_by is_later key rows) ≡ rest
      → Rising rest
      → length rest < n
      → walk rows (suc m) n a ≡ rest
  unfolding walk
  walk-rest rows m zero a rest e s h = absurd (omega (arith, h))
  walk-rest rows m (suc n) a [] e s h =
      ap (follow (suc m) (λ k. walk rows (suc m) n (some k))) (take-empty (suc m + 1) _ e)
  walk-rest rows m (suc n) a (x ∷ ys) e s h =
      ap (follow (suc m) (λ k. walk rows (suc m) n (some k))) (page-cons rows m a x ys e)
      ∙ elim (Bool-cases (ltb (suc m) (suc (length (take (suc m) ys))))) [
        | inl more ↦
            let cut = take-take m ys in
            let next : walk rows (suc m) n (some (key (last_or x (take m (take (suc m) ys)))))
                ≡ drop m ys =
              ap (λ zs. walk rows (suc m) n (some (key (last_or x zs)))) cut
              ∙ walk-rest rows m n (some (key (last_or x (take m ys)))) (drop m ys)
                  (past-next (sort_by is_later key rows) a m x ys e s) (Rising-drop m ys s.0)
                  (omega (arith, h, length-drop m ys)) in
            rw more (
              ap₂ (λ us vs. x ∷ (us ++ vs)) cut
                (ap (λ k. walk rows (suc m) n (some (key (last_or x (take k (take (suc m) ys))))))
                    (one_less m)
                  ∙ next)
              ∙ ap (λ zs. x ∷ zs) (take-append-drop m ys))
        | inr less ↦ rw less (ap (λ zs. x ∷ zs) (take_everything m ys (ground (arith, less))))
      ]

  -- Following the positions of last rows from the first page on, with a limit of at least one, and rows with keys that are all different:
  -- as many pages as there are rows, and one, list every row once, in the order of their keys.
  pub walk-lists :
      (rows : List A) (limit pages : ℕ)
      → 1 ≤ limit
      → Unrepeated is_later key rows
      → length rows < pages
      → Rising (walk rows limit pages none) × Permᴰ rows (walk rows limit pages none)
  walk-lists rows zero pages h u enough = absurd (omega (arith, h))
  walk-lists rows (suc m) pages h u enough =
      let sorted = sort_by is_later key rows in
      let s = sort_by-Ascending is_later key is_later-IsLater rows u in
      let all =
        walk-rest rows m pages none sorted (select_everything sorted) s
          (omega (arith, enough, length-sort_by rows)) in
      rw all (s, sort_by-Perm is_later key rows)
