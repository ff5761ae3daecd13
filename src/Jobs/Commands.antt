-- ===== src/Jobs/Commands.antt =====
-- src/modules/jobs/app/commands: the commands, over the in-memory store and the ports that other
-- parts fill. `read` is the store when a command reads, and the world's store the one it commits to.
pub mod Transition
pub mod Submit
pub mod Ensured
use text.Mathlib.Text.{◌==◌ as str_eq}
use n2f_nest.Prelude.{
  ℕ, ◌≡◌, ◌⊎◌, refl, arith, Bool, true, false, ◌||◌, Option, none, some, String, if◌then◌else◌,
}
use n2f_nest.Prelude.Maps.{get, set, ◌===◌}
use n2f_nest.Shared.Errors.{Kind, Failure, failure, Result, ok, err, require, map_error}
use n2f_nest.Shared.Numbers.{nat}
use n2f_nest.Shared.Dates.{Time, Date, to_time}
use n2f_nest.Shared.Text.{Text, codes, text_eq}
use n2f_nest.Shared.Values.{Value, null, number, string, object, Fields, field, end}
use n2f_nest.Shared.Ids.{Identifier}
use n2f_nest.Shared.Work.{WorkContext}
use n2f_nest.Shared.Events.{Envelope}
use n2f_nest.Shared.Events
use n2f_nest.Shared.Effects.{Action, pure, lift, mapped, on_error, ◌>>=◌, ◌>>◌}
use n2f_nest.Jobs.Failures.{dependency_failure, id_generation_failure}
use n2f_nest.Jobs.Job
use n2f_nest.Jobs.Job.{
  Job, JobStatus, JobSubject, queued, running, succeeded, failed, canceled, transition, saved,
}
use n2f_nest.Jobs.Store.{JobStore, JobCommit, Mode, create, update, commit, check}
use n2f_nest.Jobs.Writes.{commit-ok, commit-err}

-- JobOrganizationRole and JobOrganizationAccess
pub data Role : Type 0 where
  owner admin member : Role

pub record Access : Type 0 where
  pub organization_id : Identifier
  pub identity_id : Identifier
  pub role : Role

-- What a command is given: the event bus (with its state B), the generator of IDs (G), the length
-- of an event's JSON text, the clock at the call, and the organization access of a session token.
pub record Ports (B G : Type 0) : Type 0 where
  pub publish : Envelope → Action B (Unit {0})
  pub new_id : G → Result Identifier × G
  pub byte_length : Envelope → ℕ
  pub now : Date
  pub find_access : Text → Identifier → Result (Option Access)

pub record World (B G : Type 0) : Type 0 where
  pub store : JobStore
  pub bus : B
  pub ids : G

-- `access.value === null || role !== 'owner' && role !== 'admin'`
abbrev pub manager : Option Access → Failure → Result Access
manager none e = err e
manager (some a) e = elim a.role [ owner ↦ ok a | admin ↦ ok a | member ↦ err e ]

-- A member who is an owner or an admin.
abbrev pub IsManager : Role → Type 0
IsManager r = (r ≡ owner) ⊎ (r ≡ admin)

pub manager-ok :
    (view : Option Access) (e : Failure) (a : Access)
    → manager view e ≡ ok a
    → (view ≡ some a) × IsManager a.role
manager-ok view e a h = ground arith

abbrev pub null_or_text : Option Text → Value
null_or_text none = null
null_or_text (some s) = string s

abbrev pub subject_json : Option JobSubject → Value
subject_json none = null
subject_json (some s) =
    object (field (codes "type") (string s.type) (field (codes "id") (string s.id) end))

abbrev pub status_text : JobStatus → Text
status_text queued = codes "queued"
status_text running = codes "running"
status_text succeeded = codes "succeeded"
status_text failed = codes "failed"
status_text canceled = codes "canceled"

module _ {B G : Type 0} (ports : Ports B G) where
  -- `nextId`
  unfoldable pub next_id : Action (World B G) Identifier
  next_id w =
      let (r, ids) = ports.new_id w.ids in
      (map_error r id_generation_failure, record w { ids = ids })

  pub store-next_id : (w : World B G) → (next_id w).1.store ≡ w.store
  unfolding next_id
  store-next_id w = refl

  -- `Envelope.create`, whose failure is a dependency's.
  unfoldable pub new_event : Envelope → Result Envelope
  new_event draft = map_error (Events.create ports.byte_length draft) dependency_failure

  -- `writer.commit`
  unfoldable pub write : JobCommit → Action (World B G) (Unit {0})
  write input w =
      let (r, store, bus) = commit ports.publish input w.store w.bus in
      (r, record w { store = store; bus = bus })

-- A write that fails leaves the store; one that succeeds stores the saved job, once checked.
module _ {B G : Type 0} (ports : Ports B G) (f : Failure → Failure) (input : JobCommit)
    (w : World B G) where
  pub write-err :
      {e : Failure}
      → (on_error f (write ports input) w).0 ≡ err e
      → (on_error f (write ports input) w).1.store ≡ w.store
  unfolding write
  write-err h = ground (arith, commit-err ports.publish input w.store w.bus)

  pub write-ok :
      {u : Unit {0}}
      → (on_error f (write ports input) w).0 ≡ ok u
      → ((on_error f (write ports input) w).1.store ≡ set input.job.id (saved input.job) w.store)
        × (check input w.store ≡ ok tt)
  unfolding write
  write-ok h = ground (arith, commit-ok ports.publish input w.store w.bus)

module _ {B G : Type 0} (ports : Ports B G) (input : JobCommit) (w : World B G) where
  pub write-err_plain :
      {e : Failure} → (write ports input w).0 ≡ err e → (write ports input w).1.store ≡ w.store
  unfolding write
  write-err_plain h = ground (arith, commit-err ports.publish input w.store w.bus)

  pub write-ok_plain :
      {u : Unit {0}}
      → (write ports input w).0 ≡ ok u
      → (write ports input w).1.store ≡ set input.job.id (saved input.job) w.store
  unfolding write
  write-ok_plain h = ground (arith, commit-ok ports.publish input w.store w.bus)

  pub write-checked_plain :
      {u : Unit {0}} → (write ports input w).0 ≡ ok u → check input w.store ≡ ok tt
  unfolding write
  write-checked_plain h = ground (arith, commit-ok ports.publish input w.store w.bus)
