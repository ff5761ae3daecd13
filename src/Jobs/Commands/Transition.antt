-- ===== src/Jobs/Commands/Transition.antt =====
-- src/modules/jobs/app/commands/transition-job.ts
use text.Mathlib.Text.{◌==◌ as str_eq}
use n2f_nest.Prelude.{ℕ, ◌≡◌, refl, ap, ◌∙◌, true, false, Option, none, some, String, arith}
use n2f_nest.Prelude.Maps.{get, set, ◌===◌}
use n2f_nest.Shared.Errors.{
  Kind, Failure, failure, Result, ok, err, require, map_error, map_error-ok,
}
use n2f_nest.Shared.Numbers.{nat}
use n2f_nest.Shared.Dates.{Time, to_time}
use n2f_nest.Shared.Text.{Text, codes, text_eq, text_beq_iff}
use n2f_nest.Shared.Values.{Value, number, string, Fields, field, end}
use n2f_nest.Shared.Ids.{Identifier}
use n2f_nest.Shared.Work.{WorkContext}
use n2f_nest.Shared.Events.{Envelope}
use n2f_nest.Shared.Effects.{Action, pure, lift, on_error, ◌>>=◌, ◌>>◌, bind_cases, lift_cases}
use n2f_nest.Jobs.Failures.{dependency_failure}
use n2f_nest.Jobs.Job
use n2f_nest.Jobs.Job.{
  Job, JobStatus, saved, transition, starts, completes, fails, retries, cancels,
}
use n2f_nest.Jobs.Store.{JobStore, update, check}
use n2f_nest.Jobs.Commands.{
  IsManager, manager-ok, Access, Ports, World, manager, null_or_text, subject_json, status_text,
  next_id, store-next_id, write-ok, write-err, new_event, write,
}

pub record TransitionJobCommand : Type 0 where
  pub session_token : Text
  pub organization_id : Identifier
  pub job_id : Identifier
  pub failure_code : Value
  pub work : WorkContext

pub record TransitionJobResult : Type 0 where
  pub job_id : Identifier
  pub status : JobStatus
  pub attempts : ℕ
  pub updated_at : Time
  pub finished_at : Option Time

-- The constructor's arguments of StartJob, CompleteJob, FailJob, RetryJob and CancelJob.
abbrev pub operation_of : Job.Action → String
operation_of starts = "job.start"
operation_of completes = "job.complete"
operation_of fails = "job.fail"
operation_of retries = "job.retry"
operation_of cancels = "job.cancel"

-- JOB_EVENT_TYPES
abbrev pub event_type_of : Job.Action → String
event_type_of starts = "job.started.v1"
event_type_of completes = "job.completed.v1"
event_type_of fails = "job.failed.v1"
event_type_of retries = "job.retried.v1"
event_type_of cancels = "job.canceled.v1"

-- The job that `findById` returns, if it is one of the organization.
abbrev pub found : Identifier → Option Job → Result Job
found organization none = err (failure Kind.not_found "job.not_found")
found organization (some j) = elim (j.organization_id === organization) [
  | true ↦ ok j
  | false ↦ err (failure Kind.not_found "job.not_found")
]

unfoldable pub transition_payload : Job → Access → Fields
transition_payload j access = field (codes "organization_id") (string j.organization_id) (
    field (codes "job_id") (string j.id) (
      field (codes "identity_id") (string access.identity_id) (
        field (codes "kind") (string j.kind) (
          field (codes "subject") (subject_json j.subject) (
            field (codes "status") (string (status_text j.status)) (
              field (codes "attempts") (number (nat j.attempts))
                (field (codes "failure_code") (null_or_text j.failure_code) end)))))))

unfoldable pub result_of : Job → TransitionJobResult
result_of j = record {
  job_id = j.id;
  status = j.status;
  attempts = j.attempts;
  updated_at = j.updated_at;
  finished_at = j.finished_at;
}

module _ {B G : Type 0} (ports : Ports B G) where
  -- `TransitionJob.execute`
  unfoldable pub execute :
      Job.Action → TransitionJobCommand → JobStore → Action (World B G) TransitionJobResult
  execute action command read = do
    lift (
        require (str_eq command.work.operation (operation_of action))
          (failure Kind.invalid "job.invalid_operation"))
    view ← lift (
        map_error (ports.find_access command.session_token command.organization_id)
          dependency_failure)
    access ← lift (manager view (failure Kind.forbidden "job.transition_forbidden"))
    current ← lift (found command.organization_id (get command.job_id read))
    changed ← lift (transition current action ports.now command.failure_code)
    event_id ← next_id ports
    event ← lift (
        new_event ports (record {
          id = event_id;
          type = event_type_of action;
          occurred_at = to_time ports.now;
          work = command.work;
          payload = transition_payload changed access;
          subject = some (record { kind = codes "job"; id = changed.id });
          tenant = some changed.organization_id;
        }))
    on_error dependency_failure
        (write ports (record { mode = update; job = changed; event = event; work = command.work }))
    pure (result_of changed)

found-ok :
    (organization : Identifier) (o : Option Job) (j : Job)
    → found organization o ≡ ok j
    → (o ≡ some j) × (j.organization_id ≡ organization)
found-ok organization none j h = cc
found-ok organization (some i) j h =
    let e : i ≡ j = ground arith in
    (ap some e, rw (← e) ((text_beq_iff i.organization_id organization).0 (ground arith)))

-- What a successful transition did: who asked, for which job, and what was written.
pub record Transitioned {B G : Type 0} (ports : Ports B G) (action : Job.Action)
    (command : TransitionJobCommand) (read before after : JobStore) (result : TransitionJobResult)
    : Type 0 where
  pub access : Access
  pub granted : ports.find_access command.session_token command.organization_id ≡ ok (some access)
  pub managed : IsManager access.role
  pub current : Job
  pub was_read : get command.job_id read ≡ some current
  pub same_organization : current.organization_id ≡ command.organization_id
  pub changed : Job
  pub moved : transition current action ports.now command.failure_code ≡ ok changed
  pub accepted :
      (event : Envelope) × (check
          (record { mode = update; job = changed; event = event; work = command.work })
          before
        ≡ ok tt)
  pub written : after ≡ set changed.id (saved changed) before
  pub answered : result ≡ result_of changed

-- The outcomes of `execute`: it transitioned the job, or it failed and wrote nothing.
pub data Outcome {B G : Type 0} (ports : Ports B G) (action : Job.Action)
    (command : TransitionJobCommand) (read : JobStore) (w : World B G)
    : Result TransitionJobResult × World B G → Type 0 where
  done :
      {r : TransitionJobResult} {after : World B G}
      → Transitioned ports action command read w.store after.store r
      → Outcome ports action command read w (ok r, after)
  refused :
      {e : Failure} {after : World B G}
      → after.store ≡ w.store
      → Outcome ports action command read w (err e, after)

module _ {B G : Type 0} (ports : Ports B G) (action : Job.Action) (command : TransitionJobCommand)
    (read : JobStore) (w : World B G) where
  abbrev Out : Result TransitionJobResult × World B G → Type 0
  Out = Outcome ports action command read w

  -- A transition request either fails and leaves the store as it was, or it was granted to an owner or admin of the
  -- organization, found the job there, transitioned it by the domain, passed the writer's checks, stored the saved job,
  -- and answers with what it stored.
  pub execute-Outcome : Outcome ports action command read w (execute ports action command read w)
  unfolding execute next_id
  execute-Outcome =
      lift_cases Out _ _ _ (λ e h. refused refl)
        λ u correct.
          lift_cases Out _ _ _ (λ e h. refused refl)
            λ view seen.
              lift_cases Out _ _ _ (λ e h. refused refl)
                λ access granted.
                  lift_cases Out _ _ _ (λ e h. refused refl)
                    λ current was_found.
                      lift_cases Out _ _ _ (λ e h. refused refl)
                        λ changed moved.
                          bind_cases Out _ _ _ (λ e h. refused (store-next_id ports w))
                            λ event_id h5.
                              lift_cases Out _ _ _ (λ e h. refused (store-next_id ports w))
                                λ event h6.
                                  bind_cases Out _ _ _
                                    (λ e h.
                                      refused (write-err ports _ _ _ h ∙ store-next_id ports w))
                                    λ v written.
                                      let (stored, checked) = write-ok ports _ _ _ written in
                                      let (is_access, managed) = manager-ok view _ access granted in
                                      let (is_current, same) =
                                        found-ok command.organization_id _ current was_found in
                                      done (record {
                                        access = access;
                                        granted = map_error-ok _ _ seen ∙ ap ok is_access;
                                        managed = managed;
                                        current = current;
                                        was_read = is_current;
                                        same_organization = same;
                                        changed = changed;
                                        moved = moved;
                                        accepted = (event, rw (← store-next_id ports w) checked);
                                        written = rw (← store-next_id ports w) stored;
                                        answered = refl;
                                      })
