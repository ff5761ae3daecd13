-- ===== src/Jobs/History/Safety.antt =====
-- The invariant of interleaved commands on the job store of src/modules/jobs/infra/in-memory.
use n2f_nest.Prelude.{
  ◌<◌, ◌≡◌, refl, subst, sym, ◌∙◌, ◌⊎◌, inl, inr, none, some, [], ◌∷◌, arith, Bool-cases,
}
use n2f_nest.Prelude.Maps.{set-Distinct, get, set}
use n2f_nest.Shared.Errors.{ok, is_ok, ensured}
use n2f_nest.Shared.Text.{text_eq}
use n2f_nest.Shared.Ids.{Identifier}
use n2f_nest.Shared.Work.{WorkContext}
use n2f_nest.Shared.Events.{Envelope}
use n2f_nest.Shared.Effects.{Action}
use n2f_nest.Jobs.Job
use n2f_nest.Jobs.Job.{Job, JobSubject, CreateJobInput, saved, open_job, transition}
use n2f_nest.Jobs.Store.{JobStore, JobCommit, create, update, check, commit}
use n2f_nest.Jobs.Writes.{commit-ok, commit-err, check-create, check-update}
use n2f_nest.Jobs.Unique.{
  IsFree, Grows, set-IsUnique, set-Grows, get-set_cases, created-IsFree, evolved-IsFree,
}
use n2f_nest.Jobs.Lifecycle.{IsValid, create-IsValid, transition-IsValid}
use n2f_nest.Jobs.Traces.{Evolves, transition-Evolves}
use n2f_nest.Jobs.History.{
  System, Among, head, tail, Step, reads_job, creates, updates, IsFresh, IsSafe, Reach, unmoved,
  next,
}

IsFresh-Grows : (old new : JobStore) (j : Job) → Grows old new → IsFresh old j → IsFresh new j
IsFresh-Grows old new j g (b, h, r) = let (c, k, q) = g.keeps j.id b h in (c, k, ground arith)

stored-set :
    (i : Identifier) (w : Job) (store : JobStore)
    → ((id : Identifier) (j : Job) → get id store ≡ some j → (j.id ≡ id) × IsValid j)
    → w.id ≡ i
    → IsValid w
    → (id : Identifier) (j : Job) → get id (set i w store) ≡ some j
    → (j.id ≡ id) × IsValid j
stored-set i w store all e v id j h = elim (get-set_cases i id w j store h) [
  | inl p ↦ rw (← p.1) (e ∙ p.0, v)
  | inr old ↦ all id j old
]

saved-IsValid : (j : Job) → IsValid j → IsValid (saved j)
unfolding saved
saved-IsValid j v = ground arith

-- A successful write that meets the conditions keeps the invariant.
write-IsSafe :
    (s : System) (w : Job)
    → IsSafe s
    → IsValid w
    → IsFree w.id (saved w) s.store
    → (get w.id s.store ≡ none)
      ⊎ ((p : Job) × (get w.id s.store ≡ some p) × (p.version < (saved w).version))
    → IsSafe (record s { store = set w.id (saved w) s.store })
write-IsSafe s w safe v free over = record {
  distinct = set-Distinct w.id (saved w) s.store safe.distinct;
  stored = stored-set w.id (saved w) s.store safe.stored (unfold saved in refl) (saved-IsValid w v);
  read_valid = safe.read_valid;
  unique = set-IsUnique w.id (saved w) s.store safe.unique free;
  fresh = λ j a.
      IsFresh-Grows s.store (set w.id (saved w) s.store) j (set-Grows w.id (saved w) s.store over)
        (safe.fresh j a);
}

-- What was read earlier, if the store still has its version, is what the store has.
pub fresh_at_version :
    (store : JobStore) (j p : Job)
    → IsFresh store j
    → get j.id store ≡ some p
    → p.version ≡ j.version
    → p ≡ j
fresh_at_version store j p (b, h, r) g e = let q : some p ≡ some b = sym g ∙ h in ground arith

-- Reading adds a current job.
read-IsFresh :
    (s : System) (id : Identifier) (j : Job)
    → IsSafe s
    → get id s.store ≡ some j
    → (i : Job) → Among i (j ∷ s.reads)
    → IsFresh s.store i
read-IsFresh s id j safe h i head =
    (j, subst (λ x. get x s.store ≡ some j) (sym (safe.stored id j h).0) h, inl refl)
read-IsFresh s id j safe h i (tail a) = safe.fresh i a

read-valid :
    (s : System) (id : Identifier) (j : Job)
    → IsSafe s
    → get id s.store ≡ some j
    → (i : Job) → Among i (j ∷ s.reads)
    → IsValid i
read-valid s id j safe h i head = (safe.stored id j h).1
read-valid s id j safe h i (tail a) = safe.read_valid i a

-- In a safe system, an update whose checks pass, of what became of a job that was read before, replaces that
-- very job: nothing else was stored in between.
pub replaced :
    (s : System) (j k : Job) (event : Envelope) (work : WorkContext)
    → IsSafe s
    → Among j s.reads
    → Evolves j k
    → check (record { mode = update; job = k; event = event; work = work }) s.store ≡ ok tt
    → get k.id s.store ≡ some j
replaced s j k event work safe a e passed =
    let (p, found, version, organization) =
      check-update (record { mode = update; job = k; event = event; work = work }) s.store refl
        passed in
    let there : get j.id s.store ≡ some p = rw (← e.id) found in
    let same : p ≡ j = fresh_at_version s.store j p (safe.fresh j a) there (version ∙ e.version) in
    subst (λ q. get k.id s.store ≡ some q) same found

update-IsSafe :
    (s : System) (j k : Job)
    → IsSafe s
    → IsValid k
    → Evolves j k
    → get k.id s.store ≡ some j
    → IsSafe (record s { store = set k.id (saved k) s.store })
update-IsSafe s j k safe v e found =
    write-IsSafe s k safe v (evolved-IsFree k.id j k s.store safe.unique found e)
      (inr (j, found, unfold saved in ground (arith, e.version)))

module _ {B : Type 0} (publish : Envelope → Action B (Unit {0})) where
  -- A commit leaves the store, or writes the saved job after its checks passed.
  commit_cases :
      (input : JobCommit) (store : JobStore) (bus : B)
      → ((commit publish input store bus).1 ≡ store)
        ⊎ (((commit publish input store bus).1 ≡ set input.job.id (saved input.job) store)
            × (check input store ≡ ok tt))
  commit_cases input store bus = elim (Bool-cases (is_ok (commit publish input store bus).0)) [
    | inl e ↦ inr (commit-ok publish input store bus e)
    | inr e ↦ inl (commit-err publish input store bus e)
  ]

  commit-IsSafe :
      (s : System) (input : JobCommit) (bus : B)
      → IsSafe s
      → (check input s.store ≡ ok tt
          → IsSafe (record s { store = set input.job.id (saved input.job) s.store }))
      → IsSafe (record s { store = (commit publish input s.store bus).1 })
  commit-IsSafe s input bus safe written = elim (commit_cases input s.store bus) [
    | inl e ↦ rw e safe
    | inr (e, passed) ↦ rw e (written passed)
  ]

  -- Each step keeps the invariant.
  step-IsSafe : {s t : System} → Step publish s t → IsSafe s → IsSafe t
  step-IsSafe (reads_job s id j h) safe = record {
    distinct = safe.distinct;
    stored = safe.stored;
    unique = safe.unique;
    read_valid = read-valid s id j safe h;
    fresh = read-IsFresh s id j safe h;
  }
  step-IsSafe (creates s input j event work bus made) safe =
      commit-IsSafe s (record { mode = create; job = j; event = event; work = work }) bus safe
        λ passed.
          let (new, free) =
            check-create (record { mode = create; job = j; event = event; work = work }) s.store
              refl passed in
          write-IsSafe s j safe (ensured IsValid (Job.create input) (create-IsValid input) made)
            (created-IsFree j.id j s.store free) (inl new)
  step-IsSafe (updates s j k a at code event work bus was_read moved) safe =
      let e = ensured (Evolves j) (transition j a at code) (transition-Evolves j a at code) moved in
      let v : IsValid k =
        ensured IsValid (transition j a at code)
          (transition-IsValid j a at code (safe.read_valid j was_read)) moved in
      commit-IsSafe s (record { mode = update; job = k; event = event; work = work }) bus safe
        λ passed. update-IsSafe s j k safe v e (replaced s j k event work safe was_read e passed)

  -- From a safe system, any interleaving of reads, creations and updates leads to a safe system.
  pub Reach-IsSafe : {s t : System} → IsSafe s → Reach publish s t → IsSafe t
  Reach-IsSafe safe unmoved = safe
  Reach-IsSafe safe (next r st) = step-IsSafe st (Reach-IsSafe safe r)

none-Among : (j : Job) → ¬ Among j []
none-Among j a = elim a [ ]

-- No job, and nothing read.
abbrev pub empty : System
empty = record { store = []; reads = [] }

pub empty-IsSafe : IsSafe empty
unfolding get
empty-IsSafe = record {
  distinct = tt;
  stored = λ id j h. cc;
  unique = record { apart = λ i k a b h g c. cc };
  read_valid = λ j a. absurd (none-Among j a);
  fresh = λ j a. absurd (none-Among j a);
}
