-- ===== src/Jobs/History.antt =====
-- Any interleaving of commands on one job store: a command reads a job, and later commits what
-- became of it, while other commands commit in between.
pub mod Safety
use n2f_nest.Prelude.{
  ◌+◌, ◌≤◌, ◌<◌, ◌≡◌, refl, sym, ◌∙◌, ◌⊎◌, inl, inr, Bool, true, false, Option, none, some, List,
  [], ◌∷◌, arith, All, Option-cases, Bool-cases, if◌then◌else◌, find,
}
use n2f_nest.Prelude.Maps.{Distinct, Map, get, set, values, ◌===◌, get-set, find-values-none}
use n2f_nest.Shared.Errors.{Result, ok, err, Ensures, Failure}
use n2f_nest.Shared.Numbers.{unsaved}
use n2f_nest.Shared.Dates.{Date}
use n2f_nest.Shared.Values.{Value}
use n2f_nest.Shared.Text.{text_eq, text_beq_iff}
use n2f_nest.Shared.Ids.{Identifier}
use n2f_nest.Shared.Work.{WorkContext}
use n2f_nest.Shared.Events.{Envelope}
use n2f_nest.Shared.Effects.{Action}
use n2f_nest.Jobs.Job
use n2f_nest.Jobs.Job.{Job, JobSubject, CreateJobInput, saved, open_job, transition}
use n2f_nest.Jobs.Store.{
  JobStore, JobCommit, Mode, create, update, is_open_for, open_job_by_subject, subject_is_taken,
  check, commit,
}
use n2f_nest.Jobs.Writes.{commit-ok, commit-err, check-create, check-update}
use n2f_nest.Jobs.Unique.{
  IsUnique, IsFree, Grows, set-IsUnique, set-Grows, get-set_cases, created-IsFree, evolved-IsFree,
}
use n2f_nest.Jobs.Lifecycle.{IsValid, create-IsValid, transition-IsValid}
use n2f_nest.Jobs.Traces.{Evolves, transition-Evolves}

-- The store, and the jobs that commands in flight have read.
pub record System : Type 0 where
  pub store : JobStore
  pub reads : List Job

-- `j` is one of the list.
pub data Among (j : Job) : List Job → Type 0 where
  head : {js : List Job} → Among j (j ∷ js)
  tail : {i : Job} {js : List Job} → Among j js → Among j (i ∷ js)

module _ {B : Type 0} (publish : Envelope → Action B (Unit {0})) where
  pub data Step : System → System → Type 0 where
    -- A command reads a job.
    reads_job :
        (s : System) (id : Identifier) (j : Job)
        → get id s.store ≡ some j
        → Step s (record s { reads = j ∷ s.reads })
    -- A command commits a new job, successfully or not.
    creates :
        (s : System) (input : Job.CreateJobInput) (j : Job) (event : Envelope) (work : WorkContext)
        (bus : B)
        → Job.create input ≡ ok j
        → Step s (record s {
          store =
              (commit publish
                (record { mode = create; job = j; event = event; work = work })
                s.store
                bus).1;
        })
    -- A command commits a transition of a job that it read before.
    updates :
        (s : System) (j k : Job) (a : Job.Action) (at : Date) (code : Value) (event : Envelope)
        (work : WorkContext) (bus : B)
        → Among j s.reads
        → transition j a at code ≡ ok k
        → Step s (record s {
          store =
              (commit publish
                (record { mode = update; job = k; event = event; work = work })
                s.store
                bus).1;
        })

-- What a job that was read earlier still says of the store.
abbrev pub IsFresh : JobStore → Job → Type 0
IsFresh store j = (b : Job) × (get j.id store ≡ some b) × ((b ≡ j) ⊎ (j.version < b.version))

-- The invariant of the system: no ID is stored twice; each stored job is valid, stands under its own ID and has been
-- saved; open jobs are unique for their subject; and what was read is current or outdated.
pub record IsSafe (s : System) : Type 0 where
  pub distinct : Distinct s.store
  pub stored : (id : Identifier) (j : Job) → get id s.store ≡ some j → (j.id ≡ id) × IsValid j
  pub unique : IsUnique s.store
  pub read_valid : (j : Job) → Among j s.reads → IsValid j
  pub fresh : (j : Job) → Among j s.reads → IsFresh s.store j

module _ {B : Type 0} (publish : Envelope → Action B (Unit {0})) where
  -- Any number of steps.
  pub data Reach (s : System) : System → Type 0 where
    unmoved : Reach s s
    next : {t u : System} → Reach s t → Step publish t u → Reach s u
