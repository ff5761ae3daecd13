-- ===== src/Jobs/Unique.antt =====
-- Competing jobs, and the growth of a job store (src/modules/jobs/infra/in-memory/store.ts).
use n2f_nest.Prelude.{
  ◌<◌, ◌≡◌, refl, sym, ap, ◌∙◌, ◌⊎◌, inl, inr, true, false, none, some, arith, Option-cases,
  Bool-cases,
}
use n2f_nest.Prelude.Maps.{get, set, ◌===◌, get-set, find-values-none}
use n2f_nest.Shared.Text.{text_eq, text_beq_iff}
use n2f_nest.Shared.Ids.{Identifier}
use n2f_nest.Jobs.Job.{Job, JobSubject, saved, open_job}
use n2f_nest.Jobs.Store.{JobStore, is_open_for, open_job_by_subject, subject_is_taken}
use n2f_nest.Jobs.Traces.{Evolves}

-- Both jobs are open, for one organization, kind and subject.
pub record Competes (a b : Job) : Type 0 where
  pub left_open : open_job a ≡ true
  pub right_open : open_job b ≡ true
  pub organization_id : a.organization_id ≡ b.organization_id
  pub kind : a.kind ≡ b.kind
  pub subject : JobSubject
  pub left_subject : a.subject ≡ some subject
  pub right_subject : b.subject ≡ some subject

Competes-sym : {a b : Job} → Competes a b → Competes b a
Competes-sym c = record {
  left_open = c.right_open;
  right_open = c.left_open;
  organization_id = sym c.organization_id;
  kind = sym c.kind;
  subject = c.subject;
  left_subject = c.right_subject;
  right_subject = c.left_subject;
}

pub record IsUnique (store : JobStore) : Type 0 where
  pub apart :
      (i k : Identifier) (a b : Job)
      → get i store ≡ some a
      → get k store ≡ some b
      → Competes a b
      → i ≡ k

-- Writing `w` under `i` competes with no job under another ID.
abbrev pub IsFree : Identifier → Job → JobStore → Type 0
IsFree i w store = (k : Identifier) (b : Job) → get k store ≡ some b → Competes w b → i ≡ k

-- What a key holds after a write: the job written, or what it held.
pub get-set_cases :
    (i k : Identifier) (w a : Job) (store : JobStore)
    → get k (set i w store) ≡ some a
    → ((i ≡ k) × (w ≡ a)) ⊎ (get k store ≡ some a)
get-set_cases i k w a store h = elim (Bool-cases (i === k)) [
  | inl hit ↦ inl ((text_beq_iff i k).0 hit, ground (arith, get-set i k w store))
  | inr miss ↦ inr (ground (arith, get-set i k w store))
]

pub set-IsUnique :
    (i : Identifier) (w : Job) (store : JobStore)
    → IsUnique store
    → IsFree i w store
    → IsUnique (set i w store)
set-IsUnique i w store u free = record {
  apart = λ x y a b ha hb c. elim (get-set_cases i x w a store ha) [
    | inl p ↦ elim (get-set_cases i y w b store hb) [
      | inl q ↦ sym p.0 ∙ q.0
      | inr old ↦ sym p.0 ∙ free y b old (rw p.1 c)
    ]
    | inr old ↦ elim (get-set_cases i y w b store hb) [
      | inl q ↦ sym (sym q.0 ∙ free x a old (rw q.1 (Competes-sym c)))
      | inr older ↦ u.apart x y a b old older c
    ]
  ];
}

none_open :
    (w b : Job) (s : JobSubject) (k : Identifier) (store : JobStore)
    → subject_is_taken w store ≡ false
    → w.subject ≡ some s
    → get k store ≡ some b
    → is_open_for w.organization_id w.kind s b ≡ false
unfolding subject_is_taken open_job_by_subject
none_open w b s k store h e g = ground (
  arith,
  find-values-none (is_open_for w.organization_id w.kind s) k b store,
  Option-cases (open_job_by_subject w.organization_id w.kind s store),
)

competitor_open :
    (w b : Job) (c : Competes (saved w) b) → is_open_for w.organization_id w.kind c.subject b ≡ true
unfolding is_open_for saved
competitor_open w b c = ground (
  arith,
  text_beq_iff b.organization_id w.organization_id,
  text_beq_iff b.kind w.kind,
  text_beq_iff c.subject.type c.subject.type,
  text_beq_iff c.subject.id c.subject.id,
)

-- A job that was created where its subject was not taken is free.
pub created-IsFree :
    (i : Identifier) (w : Job) (store : JobStore)
    → subject_is_taken w store ≡ false
    → IsFree i (saved w) store
unfolding saved
created-IsFree i w store h k b g c =
    absurd (cc (competitor_open w b c, none_open w b c.subject k store h c.left_subject g))

-- What became of the job that stands under the ID is free.
pub evolved-IsFree :
    (i : Identifier) (j w : Job) (store : JobStore)
    → IsUnique store
    → get i store ≡ some j
    → Evolves j w
    → IsFree i (saved w) store
unfolding saved
evolved-IsFree i j w store u here e k b g c = u.apart i k j b here g (record {
  left_open = e.opens_none (unfold open_job in c.left_open);
  right_open = c.right_open;
  organization_id = sym e.organization_id ∙ c.organization_id;
  kind = sym e.kind ∙ c.kind;
  subject = c.subject;
  left_subject = sym e.subject ∙ c.left_subject;
  right_subject = c.right_subject;
})

-- Nothing disappears, and what changes has a greater version.
pub record Grows (old new : JobStore) : Type 0 where
  pub keeps :
      (id : Identifier) (a : Job)
      → get id old ≡ some a
      → (b : Job) × (get id new ≡ some b) × ((b ≡ a) ⊎ (a.version < b.version))

pub Grows-refl : (store : JobStore) → Grows store store
Grows-refl store = record { keeps = λ id a h. (a, h, inl refl) }

-- A write to a new ID, or over a smaller version, lets the store grow.
pub set-Grows :
    (i : Identifier) (w : Job) (store : JobStore)
    → (get i store ≡ none) ⊎ ((p : Job) × (get i store ≡ some p) × (p.version < w.version))
    → Grows store (set i w store)
set-Grows i w store over = record {
  keeps = λ id a h. elim (Bool-cases (i === id)) [
    | inl hit ↦ (w, ground (arith, get-set i id w store), inr (less id a h hit))
    | inr miss ↦ (a, ground (arith, get-set i id w store), inl refl)
  ];
}
  where
    same : (id : Identifier) → (i === id) ≡ true → get i store ≡ get id store
    same id hit = ap (λ (x : Identifier). get x store) ((text_beq_iff i id).0 hit)

    less :
        (id : Identifier) (a : Job)
        → get id store ≡ some a
        → (i === id) ≡ true
        → a.version < w.version
    less id a h hit = elim over [
      | inl new ↦ absurd (ground (arith, same id hit))
      | inr (p, old, lt) ↦ let e : some p ≡ some a = sym old ∙ same id hit ∙ h in ground arith
    ]
