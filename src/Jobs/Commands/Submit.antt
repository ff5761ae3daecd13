-- ===== src/Jobs/Commands/Submit.antt =====
-- src/modules/jobs/app/commands/submit-job.ts and submit-workflow-job.ts
use text.Mathlib.Text.{◌==◌ as str_eq}
use n2f_nest.Prelude.{ℕ, ◌≡◌, arith, Bool, true, false, Option, none, some, String, if◌then◌else◌}
use n2f_nest.Shared.Errors.{Kind, Failure, failure, Result, ok, err, require, map_error, has_type}
use n2f_nest.Shared.Numbers.{nat}
use n2f_nest.Shared.Dates.{to_time}
use n2f_nest.Shared.Text.{Text, codes}
use n2f_nest.Shared.Values.{Value, undefined, number, string, Fields, field, end}
use n2f_nest.Shared.Ids.{Identifier}
use n2f_nest.Shared.Work.{WorkContext}
use n2f_nest.Shared.Events.{Envelope}
use n2f_nest.Shared.Effects.{Action, pure, lift, on_error, ◌>>=◌, ◌>>◌}
use n2f_nest.Jobs.Failures.{dependency_failure}
use n2f_nest.Jobs.Job
use n2f_nest.Jobs.Job.{Job, JobStatus, JobSubject, queued, failed, is_failed, retry}
use n2f_nest.Jobs.Store.{JobStore, create, update, open_job_by_subject}
use n2f_nest.Jobs.Commands.{
  Access, Ports, World, manager, subject_json, status_text, next_id, store-next_id, new_event,
  write,
}

pub record SubmitJobCommand : Type 0 where
  pub session_token : Text
  pub organization_id : Identifier
  pub kind : Value
  pub max_attempts : Value
  pub work : WorkContext

pub record SubmitJobResult : Type 0 where
  pub job_id : Identifier
  pub organization_id : Identifier
  pub kind : Text
  pub status : JobStatus
  pub attempts : ℕ
  pub max_attempts : ℕ

unfoldable pub submit_payload : Job → Access → Fields
submit_payload j access = field (codes "organization_id") (string j.organization_id) (
    field (codes "job_id") (string j.id) (
      field (codes "identity_id") (string access.identity_id) (
        field (codes "kind") (string j.kind) (
          field (codes "subject") (subject_json j.subject) (
            field (codes "status") (string (status_text j.status))
              (field (codes "max_attempts") (number (nat j.max_attempts)) end))))))

pub record SubmitWorkflowJobCommand : Type 0 where
  pub organization_id : Identifier
  pub kind : Text
  pub subject : JobSubject
  pub max_attempts : Value
  pub work : WorkContext

pub record SubmitWorkflowJobResult : Type 0 where
  pub job_id : Identifier
  pub status : JobStatus
  pub created : Bool

unfoldable pub workflow_payload : Job → Fields
workflow_payload j = field (codes "organization_id") (string j.organization_id) (
    field (codes "job_id") (string j.id) (
      field (codes "kind") (string j.kind) (
        field (codes "subject") (subject_json j.subject) (
          field (codes "status") (string (status_text j.status)) (
            field (codes "attempts") (number (nat j.attempts))
              (field (codes "max_attempts") (number (nat j.max_attempts)) end))))))

-- `SubmitWorkflowJob.open`
unfoldable pub open_for : SubmitWorkflowJobCommand → JobStore → Option Job
open_for command store =
    open_job_by_subject command.organization_id command.kind command.subject store

module _ {B G : Type 0} (ports : Ports B G) where
  -- `SubmitJob.execute`
  unfoldable pub submit : SubmitJobCommand → Action (World B G) SubmitJobResult
  submit command = do
    lift (
        require (str_eq command.work.operation "job.submit")
          (failure Kind.invalid "job.invalid_operation"))
    view ← lift (
        map_error (ports.find_access command.session_token command.organization_id)
          dependency_failure)
    access ← lift (manager view (failure Kind.forbidden "job.submit_forbidden"))
    job_id ← next_id ports
    job ← lift (
        Job.create (record {
          id = job_id;
          organization_id = command.organization_id;
          kind = command.kind;
          subject = undefined;
          max_attempts = command.max_attempts;
          created_at = ports.now;
        }))
    event_id ← next_id ports
    event ← lift (
        new_event ports (record {
          id = event_id;
          type = "job.submitted.v1";
          occurred_at = to_time ports.now;
          work = command.work;
          payload = submit_payload job access;
          subject = some (record { kind = codes "job"; id = job.id });
          tenant = some job.organization_id;
        }))
    on_error dependency_failure
        (write ports (record { mode = create; job = job; event = event; work = command.work }))
    pure (record {
      job_id = job.id;
      organization_id = job.organization_id;
      kind = job.kind;
      status = queued;
      attempts = 0;
      max_attempts = job.max_attempts;
    })

  -- `SubmitWorkflowJob.event`
  unfoldable pub workflow_event :
      Job → String → SubmitWorkflowJobCommand → Action (World B G) Envelope
  workflow_event job type command = do
    event_id ← next_id ports
    lift (
        new_event ports (record {
          id = event_id;
          type = type;
          occurred_at = to_time ports.now;
          work = command.work;
          payload = workflow_payload job;
          subject = some (record { kind = codes "job"; id = job.id });
          tenant = some job.organization_id;
        }))

  pub store-workflow_event :
      (job : Job) (type : String) (command : SubmitWorkflowJobCommand) (w : World B G)
      → (workflow_event job type command w).1.store ≡ w.store
  unfolding workflow_event ◌>>=◌
  store-workflow_event job type command w = ground (arith, store-next_id ports w)

  -- `SubmitWorkflowJob.reuse`
  unfoldable pub reuse_failed :
      Job → SubmitWorkflowJobCommand → Action (World B G) SubmitWorkflowJobResult
  reuse_failed job command = do
    retried ← lift (retry job ports.now)
    event ← workflow_event retried "job.retried.v1" command
    on_error dependency_failure
        (write ports (record { mode = update; job = retried; event = event; work = command.work }))
    pure (record { job_id = job.id; status = retried.status; created = false })

  unfoldable pub reuse : Job → SubmitWorkflowJobCommand → Action (World B G) SubmitWorkflowJobResult
  reuse job command =
      if is_failed job.status
      then reuse_failed job command
      else pure (record { job_id = job.id; status = job.status; created = false })

  -- The answer to a failed creation: the winner of a race for the subject, or the failure.
  unfoldable pub winner_or :
      SubmitWorkflowJobCommand → Failure → Action (World B G) SubmitWorkflowJobResult
  winner_or command e w = elim (open_for command w.store) [
    | some winner ↦ reuse winner command w
    | none ↦ (err (dependency_failure e), w)
  ]

  unfoldable pub after_failure :
      SubmitWorkflowJobCommand → Failure → Action (World B G) SubmitWorkflowJobResult
  after_failure command e w =
      if has_type e "job.subject_taken"
      then winner_or command e w
      else (err (dependency_failure e), w)

  abbrev pub settled :
      SubmitWorkflowJobCommand
      → Job
      → Result (Unit {0}) × World B G
      → Result SubmitWorkflowJobResult × World B G
  settled command job (ok u, w) =
      (ok (record { job_id = job.id; status = job.status; created = true }), w)
  settled command job (err e, w) = after_failure command e w

  unfoldable pub create_new : SubmitWorkflowJobCommand → Action (World B G) SubmitWorkflowJobResult
  create_new command = do
    job_id ← next_id ports
    job ← lift (
        Job.create (record {
          id = job_id;
          organization_id = command.organization_id;
          kind = string command.kind;
          subject = subject_json (some command.subject);
          max_attempts = command.max_attempts;
          created_at = ports.now;
        }))
    event ← workflow_event job "job.submitted.v1" command
    λ w.
        settled command job
          (write ports (record { mode = create; job = job; event = event; work = command.work }) w)

  -- `SubmitWorkflowJob.execute`; `read` is the store at its first read.
  unfoldable pub submit_workflow :
      SubmitWorkflowJobCommand → JobStore → Action (World B G) SubmitWorkflowJobResult
  submit_workflow command read = do
    lift (
        require (str_eq command.work.operation "job.submit.workflow")
          (failure Kind.invalid "job.invalid_operation"))
    elim (open_for command read) [ some job ↦ reuse job command | none ↦ create_new command ]
