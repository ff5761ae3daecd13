-- ===== src/Jobs/Store.antt =====
-- src/modules/jobs/infra/in-memory: the job store, its reader and its writer. A commit checks,
-- writes, publishes and, if that fails, writes back, with no other commit in between.
use n2f_nest.Prelude.{Bool, true, false, ◌&&◌, Option, none, some, ◌==◌, find}
use n2f_nest.Prelude.Maps.{Map, get, set, delete, values, ◌===◌}
use n2f_nest.Shared.Errors.{Kind, failure, Failure, Result, ok, err, require, refuse, ◌>>◌}
use n2f_nest.Shared.Text.{Text, text_eq}
use n2f_nest.Shared.Ids.{Identifier}
use n2f_nest.Shared.Work.{WorkContext}
use n2f_nest.Shared.Events.{Envelope, assert_event_work}
use n2f_nest.Shared.Effects.{Action}
use n2f_nest.Jobs.Job.{Job, JobSubject, saved, open_job}

-- InMemoryJobStore
abbrev pub JobStore : Type 0
JobStore = Map Identifier Job

abbrev pub same_subject : Option JobSubject → JobSubject → Bool
same_subject none s = false
same_subject (some r) s = (r.type === s.type) && (r.id === s.id)

-- The test of `openJobBySubject`.
unfoldable pub is_open_for : Identifier → Text → JobSubject → Job → Bool
is_open_for organization kind subject job =
    open_job job
    && (job.organization_id === organization)
    && (job.kind === kind)
    && same_subject job.subject subject

unfoldable pub open_job_by_subject : Identifier → Text → JobSubject → JobStore → Option Job
open_job_by_subject organization kind subject store =
    find (is_open_for organization kind subject) (values store)

pub data Mode : Type 0 where
  create update : Mode

pub record JobCommit : Type 0 where
  pub mode : Mode
  pub job : Job
  pub event : Envelope
  pub work : WorkContext

-- src/modules/jobs/infra/failures.ts
abbrev pub stale_write : Failure
stale_write = failure Kind.conflict "job.stale_write"

abbrev pub job_exists : Failure
job_exists = failure Kind.conflict "job.already_exists"

abbrev pub subject_taken : Failure
subject_taken = failure Kind.conflict "job.subject_taken"

abbrev pub job_not_found : Failure
job_not_found = failure Kind.not_found "job.not_found"

abbrev pub organization_mismatch : Failure
organization_mismatch = failure Kind.conflict "job.organization_mismatch"

-- `job.subject && this.store.openJobBySubject(...)`
unfoldable pub subject_is_taken : Job → JobStore → Bool
subject_is_taken job store = elim job.subject [
  | none ↦ false
  | some subject ↦ elim (open_job_by_subject job.organization_id job.kind subject store) [
    | none ↦ false
    | some other ↦ true
  ]
]

unfoldable pub check_create : Job → Option Job → JobStore → Result (Unit {0})
check_create job (some previous) store = err job_exists
check_create job none store = refuse (subject_is_taken job store) subject_taken

unfoldable pub check_update : Job → Option Job → Result (Unit {0})
check_update job none = err job_not_found
check_update job (some previous) = do
  require (previous.organization_id === job.organization_id) organization_mismatch
  require (previous.version == job.version) stale_write

unfoldable pub check : JobCommit → JobStore → Result (Unit {0})
unfolding check_create check_update
check input store = do
  assert_event_work input.event input.work
  elim input.mode [
    | create ↦ check_create input.job (get input.job.id store) store
    | update ↦ check_update input.job (get input.job.id store)
  ]

-- What the failed publication undoes.
abbrev pub undo : Identifier → Option Job → JobStore → JobStore
undo id none store = delete id store
undo id (some previous) store = set id previous store

-- The event bus is a port: `publish` hands an event on, or fails.
module _ {B : Type 0} (publish : Envelope → Action B (Unit {0})) where
  abbrev pub settle :
      Identifier → Option Job → JobStore → Result (Unit {0}) × B → Result (Unit {0}) × JobStore × B
  settle id previous written (ok u, bus) = (ok u, written, bus)
  settle id previous written (err e, bus) = (err e, undo id previous written, bus)

  -- `InMemoryJobWriter.commit`
  unfoldable pub commit : JobCommit → JobStore → B → Result (Unit {0}) × JobStore × B
  commit input store bus = elim (check input store) [
    | err e ↦ (err e, store, bus)
    | ok u ↦
        settle input.job.id (get input.job.id store) (set input.job.id (saved input.job) store)
          (publish input.event bus)
  ]
