-- ===== src/Workflows/Processing.antt =====
-- src/workflows/document-processing: app/request-document-processing.ts and
-- infra/job-event-subscription.ts. A call of a command of Document or Jobs runs on its part of the
-- state, with nothing in between its reads and its commit.
use text.Mathlib.Text.{◌==◌ as str_eq}
use n2f_nest.Prelude.{Bool, true, false, ◌&&◌, Option, none, some, String}
use n2f_nest.Shared.Errors.{Kind, failure, Result, ok, err, require}
use n2f_nest.Shared.Numbers.{nat}
use n2f_nest.Shared.Text.{Text, codes}
use n2f_nest.Shared.Values.{Value, undefined, string}
use n2f_nest.Shared.Ids.{Identifier}
use n2f_nest.Shared.Work.{WorkContext}
use n2f_nest.Shared.Events.{Envelope}
use n2f_nest.Shared.Effects.{Action, pure, lift, ◌>>=◌, ◌>>◌}
use n2f_nest.Organization.Organization
use n2f_nest.Organization.Membership
use n2f_nest.Organization.Membership.{MembershipRole, owner, admin, member}
use n2f_nest.Organization.Store.{OrganizationStore, OrganizationMembershipView}
use n2f_nest.Organization.Access.{get_organization_membership}
use n2f_nest.Jobs.Job.{JobStatus}
use n2f_nest.Jobs.Store.{JobStore}
use n2f_nest.Jobs.Commands as JobCommands
use n2f_nest.Jobs.Commands.Submit.{submit_workflow}
use n2f_nest.Document.Document.{DocumentStatus}
use n2f_nest.Document.Store.{DocumentStore}
use n2f_nest.Document.Commands
use n2f_nest.Document.Commands.{
  Process, begin, retry, complete, fail, operation_of, ProcessDocumentCommand,
  ProcessDocumentResult, process_document, check_processable,
}
use n2f_nest.Workflows.JobEvents.{
  OutcomeAction, retries, completes, fails, JobOutcome, document_processing_job_kind,
  decode_job_event,
}

abbrev pub process_of : OutcomeAction → Process
process_of retries = retry
process_of completes = complete
process_of (fails code) = fail

abbrev pub code_of : OutcomeAction → Value
code_of (fails code) = string code
code_of _ = undefined

pub record RequestDocumentProcessingCommand : Type 0 where
  pub session_token : Text
  pub organization_id : Identifier
  pub document_id : Identifier
  pub max_attempts : Value
  pub work : WorkContext

pub record RequestDocumentProcessingResult : Type 0 where
  pub document_id : Identifier
  pub job_id : Identifier
  pub document_status : DocumentStatus
  pub job_status : JobStatus
  pub job_created : Bool

-- What the workflow is given: the ports of Document and of Jobs, the identity of a session token, and `childWork`,
-- which the provenance factory answers.
pub record Ports (B G : Type 0) : Type 0 where
  pub documents : Commands.Ports B G
  pub jobs : JobCommands.Ports B G
  pub find_current : Text → Result Identifier
  pub child_work : WorkContext → String → Result WorkContext

pub record World (B G : Type 0) : Type 0 where
  pub documents : DocumentStore
  pub jobs : JobStore
  pub bus : B
  pub ids : G

-- Owners and admins with an active membership in an active organization.
unfoldable pub may_process : Option OrganizationMembershipView → Bool
may_process none = false
may_process (some v) =
    Organization.is_active v.organization.status
    && Membership.is_active v.membership.status
    && elim v.membership.role [ owner ↦ true | admin ↦ true | member ↦ false ]

module _ {B G A : Type 0} where
  -- A call of Document, on its part of the state.
  abbrev pub in_documents : Action (Commands.World B G) A → Action (World B G) A
  in_documents m w =
      let (r, d) = m (record { store = w.documents; bus = w.bus; ids = w.ids }) in
      (r, record w { documents = d.store; bus = d.bus; ids = d.ids })

  -- A call of Jobs.
  abbrev pub in_jobs : Action (JobCommands.World B G) A → Action (World B G) A
  in_jobs m w =
      let (r, j) = m (record { store = w.jobs; bus = w.bus; ids = w.ids }) in
      (r, record w { jobs = j.store; bus = j.bus; ids = j.ids })

module _ {B G : Type 0} (ports : Ports B G) where
  -- The command that an outcome gives.
  unfoldable pub outcome_command : JobOutcome → WorkContext → ProcessDocumentCommand
  outcome_command o work = record {
    organization_id = o.organization_id;
    document_id = o.document_id;
    processing_run = o.job_id;
    attempt = some (nat o.attempt);
    failure_code = code_of o.action;
    work = work;
  }

  -- `DocumentProcessingJobEventSubscription.handle`
  unfoldable pub handle : Envelope → Action (World B G) (Unit {0})
  handle event w = elim (decode_job_event event) [
    | err e ↦ (err e, w)
    | ok none ↦ (ok tt, w)
    | ok (some o) ↦ elim (ports.child_work event.work (operation_of (process_of o.action))) [
      | err e ↦ (err e, w)
      | ok work ↦
          (in_documents (
                process_document ports.documents (process_of o.action) (outcome_command o work)
                  w.documents)
              >> pure tt)
            w
    ]
  ]

  -- `RequestDocumentProcessing.execute`; `organizations` is the store of Organization when it is asked.
  unfoldable pub request_processing :
      RequestDocumentProcessingCommand
      → OrganizationStore
      → Action (World B G) RequestDocumentProcessingResult
  request_processing command organizations = do
    lift (
        require (str_eq command.work.operation "document.processing.request")
          (failure Kind.invalid "document.processing.invalid_operation"))
    view ← lift (
        get_organization_membership ports.find_current command.session_token command.organization_id
          organizations)
    lift (require (may_process view) (failure Kind.forbidden "document.processing_forbidden"))
    λ w. lift (check_processable command.organization_id command.document_id w.documents) w
    job_work ← lift (ports.child_work command.work "job.submit.workflow")
    submitted ← λ w.
        in_jobs
          (submit_workflow ports.jobs
            (record {
              organization_id = command.organization_id;
              kind = document_processing_job_kind;
              subject = record { type = codes "document"; id = command.document_id };
              max_attempts = command.max_attempts;
              work = job_work;
            })
            w.jobs)
          w
    begin_work ← lift (ports.child_work job_work "document.processing.start")
    begun ← λ w.
        in_documents
          (process_document ports.documents begin
            (record {
              organization_id = command.organization_id;
              document_id = command.document_id;
              processing_run = submitted.job_id;
              attempt = none;
              failure_code = undefined;
              work = begin_work;
            })
            w.documents)
          w
    pure (record {
      document_id = begun.document_id;
      job_id = submitted.job_id;
      document_status = begun.status;
      job_status = submitted.status;
      job_created = submitted.created;
    })
