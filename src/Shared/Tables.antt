-- ===== src/Shared/Tables.antt =====
-- Tables of versioned records, as the in-memory stores keep them (src/modules/*/infra/in-memory):
-- each record stands under its ID, and a writer replaces it only at the version that was read.
use n2f_nest.Prelude.{
  ℕ, ◌≤◌, ◌<◌, ◌≡◌, refl, sym, ap, subst, ◌∙◌, ◌⊎◌, inl, inr, none, some, List, [], ◌∷◌, arith,
  Bool-cases,
}
use n2f_nest.Prelude.Maps.{Map, get, set, ◌===◌, get-set, Distinct, set-Distinct}
use n2f_nest.Shared.Text.{text_eq, text_beq_iff}
use n2f_nest.Shared.Ids.{Identifier}

-- `a` is one of the list.
pub data Among {A : Type 0} (a : A) : List A → Type 0 where
  head : {xs : List A} → Among a (a ∷ xs)
  tail : {b : A} {xs : List A} → Among a xs → Among a (b ∷ xs)

pub none-Among : {A : Type 0} (a : A) → ¬ Among a []
none-Among a x = elim x [ ]

-- What holds of one more record and of the others holds of all.
pub read-Among :
    {A : Type 0} (P : A → Type 0) (r : A) (reads : List A)
    → P r
    → ((j : A) → Among j reads → P j)
    → (j : A) → Among j (r ∷ reads)
    → P j
read-Among P r reads p all j head = p
read-Among P r reads p all j (tail a) = all j a

abbrev pub Table : Type 0 → Type 0
Table A = Map Identifier A

module _ {A : Type 0} where
  -- What a key holds after a write: what was written, or what it held.
  pub get-set_cases :
      (i k : Identifier) (w a : A) (store : Table A)
      → get k (set i w store) ≡ some a
      → ((i ≡ k) × (w ≡ a)) ⊎ (get k store ≡ some a)
  get-set_cases i k w a store h = elim (Bool-cases (i === k)) [
    | inl hit ↦ inl ((text_beq_iff i k).0 hit, ground (arith, get-set i k w store))
    | inr miss ↦ inr (ground (arith, get-set i k w store))
  ]

  pub get-set_same : (i : Identifier) (w : A) (store : Table A) → get i (set i w store) ≡ some w
  get-set_same i w store = ground (arith, get-set i i w store, text_beq_iff i i)

  pub get-set_other :
      (i k : Identifier) (w : A) (store : Table A) → ¬ (i ≡ k) → get k (set i w store) ≡ get k store
  get-set_other i k w store apart = elim (Bool-cases (i === k)) [
    | inl hit ↦ absurd (apart ((text_beq_iff i k).0 hit))
    | inr miss ↦ ground (arith, get-set i k w store)
  ]

  -- A key that holds a record still holds one after a write.
  pub set-keeps :
      (i k : Identifier) (w a : A) (store : Table A)
      → get k store ≡ some a
      → (b : A) × (get k (set i w store) ≡ some b)
  set-keeps i k w a store h = elim (Bool-cases (i === k)) [
    | inl hit ↦ (w, ground (arith, get-set i k w store))
    | inr miss ↦ (a, ground (arith, get-set i k w store))
  ]

  -- A predicate of every record and its key.
  abbrev pub Every : (Identifier → A → Type 0) → Table A → Type 0
  Every P store = (k : Identifier) (a : A) → get k store ≡ some a → P k a

  pub set-Every :
      (P : Identifier → A → Type 0) (i : Identifier) (w : A) (store : Table A)
      → Every P store
      → P i w
      → Every P (set i w store)
  set-Every P i w store all p k a h = elim (get-set_cases i k w a store h) [
    | inl e ↦ subst (λ x. P x a) e.0 (subst (P i) e.1 p)
    | inr old ↦ all k a old
  ]

  -- Records that clash stand under one ID.
  abbrev pub Apart : (A → A → Type 0) → Table A → Type 0
  Apart Clash store =
      (i k : Identifier) (a b : A) → get i store ≡ some a → get k store ≡ some b → Clash a b → i ≡ k

  -- A write that clashes only with what stands under its own ID keeps them apart.
  pub set-Apart :
      (Clash : A → A → Type 0) (i : Identifier) (w : A) (store : Table A)
      → ((a b : A) → Clash a b → Clash b a)
      → Apart Clash store
      → Every (λ k b. Clash w b → i ≡ k) store
      → Apart Clash (set i w store)
  set-Apart Clash i w store flip u free x y a b ha hb c = elim (get-set_cases i x w a store ha) [
    | inl p ↦ elim (get-set_cases i y w b store hb) [
      | inl q ↦ sym p.0 ∙ q.0
      | inr old ↦ sym p.0 ∙ free y b old (subst (λ z. Clash z b) (sym p.1) c)
    ]
    | inr old ↦ elim (get-set_cases i y w b store hb) [
      | inl q ↦ sym (sym q.0 ∙ free x a old (subst (λ z. Clash z a) (sym q.1) (flip a b c)))
      | inr older ↦ u x y a b old older c
    ]
  ]

module _ {A : Type 0} (id : A → Identifier) (version : A → ℕ) where
  -- What a record that was read earlier still says of the table: it stands there, or a later version of it.
  abbrev pub IsFresh : Table A → A → Type 0
  IsFresh store j = (b : A) × (get (id j) store ≡ some b) × ((b ≡ j) ⊎ (version j < version b))

  -- No ID stands twice, each record stands under its own ID and has been saved, and what was read is current or outdated.
  pub record IsTable (store : Table A) (reads : List A) : Type 0 where
    pub distinct : Distinct store
    pub keyed : Every (λ k a. id a ≡ k) store
    pub stored : Every (λ k a. 1 ≤ version a) store
    pub fresh : (j : A) → Among j reads → IsFresh store j
    pub read : (j : A) → Among j reads → 1 ≤ version j

  -- The write is of a new ID, or over a smaller version.
  abbrev pub Supersedes : A → Table A → Type 0
  Supersedes w store =
      (get (id w) store ≡ none) ⊎ ((p : A) × (get (id w) store ≡ some p) × (version p < version w))

  IsFresh-set :
      (w : A) (store : Table A) (j : A)
      → Supersedes w store
      → IsFresh store j
      → IsFresh (set (id w) w store) j
  IsFresh-set w store j over (b, h, r) = elim (Bool-cases (id w === id j)) [
    | inr miss ↦ (b, ground (arith, get-set (id w) (id j) w store), r)
    | inl hit ↦
        let same : get (id w) store ≡ get (id j) store =
          ap (λ (x : Identifier). get x store) ((text_beq_iff (id w) (id j)).0 hit) in
        elim over [
          | inl new ↦ let e : none ≡ some b = sym new ∙ same ∙ h in absurd cc
          | inr (p, old, less) ↦
              let e : some p ≡ some b = sym old ∙ same ∙ h in
              (w, ground (arith, get-set (id w) (id j) w store), inr (ground arith))
        ]
  ]

  pub write-IsTable :
      (w : A) (store : Table A) (reads : List A)
      → IsTable store reads
      → Supersedes w store
      → 1 ≤ version w
      → IsTable (set (id w) w store) reads
  write-IsTable w store reads t over saved = record {
    distinct = set-Distinct (id w) w store t.distinct;
    keyed = set-Every (λ k a. id a ≡ k) (id w) w store t.keyed refl;
    stored = set-Every (λ k a. 1 ≤ version a) (id w) w store t.stored saved;
    fresh = λ j a. IsFresh-set w store j over (t.fresh j a);
    read = t.read;
  }

  read-IsFresh :
      (k : Identifier) (r : A) (store : Table A) (reads : List A)
      → IsTable store reads
      → get k store ≡ some r
      → (j : A) → Among j (r ∷ reads)
      → IsFresh store j
  read-IsFresh k r store reads t h j head =
      (j, subst (λ x. get x store ≡ some j) (sym (t.keyed k j h)) h, inl refl)
  read-IsFresh k r store reads t h j (tail a) = t.fresh j a

  pub read-IsTable :
      (k : Identifier) (r : A) (store : Table A) (reads : List A)
      → IsTable store reads
      → get k store ≡ some r
      → IsTable store (r ∷ reads)
  read-IsTable k r store reads t h = record {
    distinct = t.distinct;
    keyed = t.keyed;
    stored = t.stored;
    fresh = read-IsFresh k r store reads t h;
    read = read-Among (λ j. 1 ≤ version j) r reads (t.stored k r h) t.read;
  }

  -- What was read, if the table still has its version, is what the table has.
  pub current :
      (store : Table A) (reads : List A) (j p : A)
      → IsTable store reads
      → Among j reads
      → get (id j) store ≡ some p
      → version p ≡ version j
      → p ≡ j
  current store reads j p t a g e =
      let (b, h, r) = t.fresh j a in let q : some p ≡ some b = sym g ∙ h in ground arith

  pub empty-IsTable : IsTable [] []
  unfolding get
  empty-IsTable = record {
    distinct = tt;
    keyed = λ k a h. cc;
    stored = λ k a h. cc;
    fresh = λ j a. absurd (none-Among j a);
    read = λ j a. absurd (none-Among j a);
  }
