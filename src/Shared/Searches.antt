-- ===== src/Shared/Searches.antt =====
-- Searches among the selected records of a table, as the readers of the in-memory stores make them:
-- `[...map.values()].filter(q).find(p)` and `.some(p)`.
use n2f_nest.Prelude.{
  ◌≡◌, refl, sym, subst, ◌⊎◌, inl, inr, Bool, true, false, ◌||◌, none, some, List, [], ◌∷◌, arith,
  find, select, any, Bool-cases, if◌then◌else◌,
}
use n2f_nest.Prelude.Maps.{get, values, ◌===◌, Distinct}
use n2f_nest.Shared.Text.{text_eq, text_beq_iff}
use n2f_nest.Shared.Ids.{Identifier}
use n2f_nest.Shared.Tables.{Table, Among, head, tail, none-Among}

-- The head, or one of the rest.
pub Among-cases : {A : Type 0} {a b : A} {xs : List A} → Among a (b ∷ xs) → (b ≡ a) ⊎ Among a xs
Among-cases head = inl refl
Among-cases (tail x) = inr x

module _ {A : Type 0} (p q : A → Bool) where
  -- A search that finds none says so of each record that was selected.
  pub any-select-none :
      (k : Identifier) (a : A) (t : Table A)
      → any p (select q (values t)) ≡ false
      → get k t ≡ some a
      → q a ≡ true
      → p a ≡ false
  unfolding get
  any-select-none k a [] h g s = cc
  any-select-none k a ((i, b) ∷ t) h g s = elim (Bool-cases (q b)) [
    | inl pass ↦
        let both : (p b || any p (select q (values t))) ≡ false = rw pass at h in
        ground (arith, any-select-none k a t)
    | inr fail ↦
        let rest : any p (select q (values t)) ≡ false = rw fail at h in
        ground (arith, any-select-none k a t)
  ]

  pub find-select-none :
      (k : Identifier) (a : A) (t : Table A)
      → find p (select q (values t)) ≡ none
      → get k t ≡ some a
      → q a ≡ true
      → p a ≡ false
  unfolding get
  find-select-none k a [] h g s = cc
  find-select-none k a ((i, b) ∷ t) h g s = elim (Bool-cases (q b)) [
    | inl pass ↦
        let both : (if p b then some b else find p (select q (values t))) ≡ none = rw pass at h in
        ground (arith, find-select-none k a t)
    | inr fail ↦
        let rest : find p (select q (values t)) ≡ none = rw fail at h in
        ground (arith, find-select-none k a t)
  ]

  -- A search that finds a record finds one of the table, which passes both tests.
  pub find-select-some :
      (t : Table A) (a : A)
      → Distinct t
      → find p (select q (values t)) ≡ some a
      → (k : Identifier) × (get k t ≡ some a) × (p a ≡ true) × (q a ≡ true)
  unfolding get
  find-select-some [] a d h = cc
  find-select-some ((i, b) ∷ t) a d h = elim (Bool-cases (q b)) [
    | inr fail ↦
        let (k, found, pass_p, pass_q) = find-select-some t a d.1 (rw fail at h) in
        (k, ground (arith, text_beq_iff i k, d.0), pass_p, pass_q)
    | inl pass ↦
        let both : (if p b then some b else find p (select q (values t))) ≡ some a = rw pass at h in
        elim (Bool-cases (p b)) [
          | inl hit ↦
              let here : b ≡ a = ground arith in
              (i, ground (arith, text_beq_iff i i), ground arith, ground arith)
          | inr miss ↦
              let (k, found, pass_p, pass_q) = find-select-some t a d.1 (ground arith) in
              (k, ground (arith, text_beq_iff i k, d.0), pass_p, pass_q)
        ]
  ]

module _ {A : Type 0} (q : A → Bool) where
  -- A selected record is one of the table, and passes the test.
  pub Among-select :
      (t : Table A) (a : A)
      → Distinct t
      → Among a (select q (values t))
      → (k : Identifier) × (get k t ≡ some a) × (q a ≡ true)
  unfolding get
  Among-select [] a d x = absurd (none-Among a x)
  Among-select ((i, b) ∷ t) a d x = elim (Bool-cases (q b)) [
    | inr fail ↦
        let (k, found, pass) = Among-select t a d.1 (rw fail at x) in
        (k, ground (arith, text_beq_iff i k, d.0), pass)
    | inl pass ↦
        let y : Among a (b ∷ select q (values t)) = rw pass at x in
        elim (Among-cases y) [
          | inl e ↦ (i, ground (arith, text_beq_iff i i), ground arith)
          | inr rest ↦
              let (k, found, passes) = Among-select t a d.1 rest in
              (k, ground (arith, text_beq_iff i k, d.0), passes)
        ]
  ]

  -- A record of the table that passes the test is selected.
  pub select-Among :
      (t : Table A) (k : Identifier) (a : A)
      → get k t ≡ some a
      → q a ≡ true
      → Among a (select q (values t))
  unfolding get
  select-Among [] k a h g = absurd cc
  select-Among ((i, b) ∷ t) k a h g = elim (Bool-cases (i === k)) [
    | inl hit ↦
        let e : b ≡ a = ground arith in
        let pass : q b ≡ true = ground arith in
        rw pass (subst (λ x. Among a (x ∷ select q (values t))) (sym e) head)
    | inr miss ↦
        let rest = select-Among t k a (ground arith) g in
        elim (Bool-cases (q b)) [ inl pass ↦ rw pass (tail rest) | inr fail ↦ rw fail rest ]
  ]
