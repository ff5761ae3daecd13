-- ===== src/Document/Commands.antt =====
-- src/modules/document/app: the commands and two of the queries. `read` is the store when a command
-- reads, and the world's store the one it commits to.
use text.Mathlib.Text.{◌==◌ as str_eq}
use n2f_nest.Prelude.{ℕ, Bool, true, false, ◌&&◌, Option, none, some, String, ◌==◌, if◌then◌else◌}
use n2f_nest.Prelude.Maps.{get, ◌===◌}
use n2f_nest.Shared.Errors.{Kind, Failure, failure, Result, ok, err, require, map_error}
use n2f_nest.Shared.Errors.{◌>>=◌ as ◌>>>=◌}
use n2f_nest.Shared.Numbers.{Number, nat}
use n2f_nest.Shared.Dates.{Time, Date, to_time}
use n2f_nest.Shared.Text.{Text, codes, text_eq}
use n2f_nest.Shared.Values.{Value, undefined, null, number, string, Fields, field, end}
use n2f_nest.Shared.Ids.{Identifier}
use n2f_nest.Shared.Work.{WorkContext}
use n2f_nest.Shared.Events.{Envelope}
use n2f_nest.Shared.Events
use n2f_nest.Shared.Effects.{Action, pure, lift, on_error, ◌>>=◌, ◌>>◌}
use n2f_nest.Organization.Membership.{owner, admin, member}
use n2f_nest.Organization.Access.{OrganizationAccessView}
use n2f_nest.Document.Failures.{dependency_failure, id_generation_failure}
use n2f_nest.Document.Document
use n2f_nest.Document.Document.{
  Document, DocumentStatus, active, processing, processed, processing_failed, archived, Report,
  retrying, succeeded, failed, ProcessingOutcome, begin_processing, apply_processing_outcome,
  is_run,
}
use n2f_nest.Document.Store.{DocumentStore, DocumentCommit, create, update, commit}

-- What the commands are given; an organization access is answered by src/integration/organization-access.ts.
pub record Ports (B G : Type 0) : Type 0 where
  pub publish : Envelope → Action B (Unit {0})
  pub new_id : G → Result Identifier × G
  pub byte_length : Envelope → ℕ
  pub now : Date
  pub find_access : Text → Identifier → Result (Option OrganizationAccessView)
  pub iso_string : Time → Text

pub record World (B G : Type 0) : Type 0 where
  pub store : DocumentStore
  pub bus : B
  pub ids : G

pub record ProcessDocumentCommand : Type 0 where
  pub organization_id : Identifier
  pub document_id : Identifier
  pub processing_run : Identifier
  pub attempt : Option Number
  pub failure_code : Value
  pub work : WorkContext

pub record ProcessDocumentResult : Type 0 where
  pub document_id : Identifier
  pub organization_id : Identifier
  pub status : DocumentStatus
  pub processing_failure_code : Option Text

-- `Action`
pub data Process : Type 0 where
  begin retry complete fail : Process

-- The constructor's arguments of BeginDocumentProcessing, RetryDocumentProcessing,
-- CompleteDocumentProcessing and FailDocumentProcessing.
abbrev pub operation_of : Process → String
operation_of begin = "document.processing.start"
operation_of retry = "document.processing.retry"
operation_of complete = "document.processing.complete"
operation_of fail = "document.processing.fail"

abbrev pub event_type_of : Process → String
event_type_of begin = "document.processing.started.v1"
event_type_of retry = "document.processing.started.v1"
event_type_of complete = "document.processing.completed.v1"
event_type_of fail = "document.processing.failed.v1"

-- `command.attempt ?? 0`
abbrev pub attempt_or_zero : Option Number → Number
attempt_or_zero none = nat 0
attempt_or_zero (some n) = n

abbrev pub report_of : Process → Value → Report
report_of retry code = retrying
report_of complete code = succeeded
report_of _ code = failed code

unfoldable pub transition : Document → Process → Date → ProcessDocumentCommand → Result Document
transition d begin at command = begin_processing d at command.processing_run
transition d action at command = apply_processing_outcome d at (record {
  run = command.processing_run;
  attempt = attempt_or_zero command.attempt;
  result = report_of action command.failure_code;
})

abbrev pub same_status : DocumentStatus → DocumentStatus → Bool
same_status active active = true
same_status processing processing = true
same_status processed processed = true
same_status processing_failed processing_failed = true
same_status archived archived = true
same_status _ _ = false

abbrev pub same_run : Option Identifier → Option Identifier → Bool
same_run none none = true
same_run (some a) (some b) = a === b
same_run _ _ = false

-- `changed.value === current.value`: a transition returns the document itself, or a new one in which
-- the status, the run or the attempt differs.
unfoldable pub same_document : Document → Document → Bool
same_document changed current =
    same_status changed.status current.status
    && same_run changed.processing_run current.processing_run
    && changed.processing_attempt == current.processing_attempt

unfoldable pub result_of : Document → ProcessDocumentResult
result_of d = record {
  document_id = d.id;
  organization_id = d.organization_id;
  status = d.status;
  processing_failure_code = d.processing_failure_code;
}

abbrev pub status_text : DocumentStatus → Text
status_text active = codes "active"
status_text processing = codes "processing"
status_text processed = codes "processed"
status_text processing_failed = codes "processing_failed"
status_text archived = codes "archived"

abbrev pub null_or_text : Option Text → Value
null_or_text none = null
null_or_text (some s) = string s

unfoldable pub process_payload : Document → Fields
process_payload d = field (codes "organization_id") (string d.organization_id) (
    field (codes "document_id") (string d.id) (
      field (codes "status") (string (status_text d.status)) (
        field (codes "processing_failure_code") (null_or_text d.processing_failure_code) (
          field (codes "processing_run") (null_or_text d.processing_run)
            (field (codes "processing_attempt") (number (nat d.processing_attempt)) end)))))

-- The document that `findById` returns, if it is one of the organization.
unfoldable pub document_in : Identifier → Option Document → Result Document
document_in organization none = err (failure Kind.not_found "document.not_found")
document_in organization (some d) =
    if d.organization_id === organization
    then ok d
    else err (failure Kind.not_found "document.not_found")

abbrev invalid_operation : Failure
invalid_operation = failure Kind.invalid "document.invalid_operation"

abbrev pub member_of : Failure → Option OrganizationAccessView → Result OrganizationAccessView
member_of e none = err e
member_of e (some a) = ok a

abbrev pub manager_of : Failure → Option OrganizationAccessView → Result OrganizationAccessView
manager_of e none = err e
manager_of e (some a) = elim a.role [ owner ↦ ok a | admin ↦ ok a | member ↦ err e ]

pub record ArchiveDocumentCommand : Type 0 where
  pub session_token : Text
  pub organization_id : Identifier
  pub document_id : Identifier
  pub work : WorkContext

-- The result's status is always `archived`.
pub record ArchiveDocumentResult : Type 0 where
  pub document_id : Identifier
  pub archived_at : Option Time

pub record CreateDocumentCommand : Type 0 where
  pub session_token : Text
  pub organization_id : Identifier
  pub name : Value
  pub storage_key : Value
  pub work : WorkContext

-- The result's status is always `active`.
pub record CreateDocumentResult : Type 0 where
  pub document_id : Identifier
  pub organization_id : Identifier
  pub name : Text
  pub storage_key : Option Text

unfoldable pub archive_payload : Document → Identifier → Value → Fields
archive_payload d identity archived_at =
    field (codes "organization_id") (string d.organization_id) (
      field (codes "document_id") (string d.id) (
        field (codes "identity_id") (string identity) (
          field (codes "status") (string (status_text d.status))
            (field (codes "archived_at") archived_at end))))

unfoldable pub create_payload : Document → Identifier → Fields
create_payload d identity = field (codes "organization_id") (string d.organization_id) (
    field (codes "document_id") (string d.id) (
      field (codes "identity_id") (string identity) (
        field (codes "name") (string d.name) (
          field (codes "storage_key") (null_or_text d.storage_key)
            (field (codes "status") (string (status_text d.status)) end)))))

module _ {B G : Type 0} (ports : Ports B G) where
  -- `nextId`
  unfoldable pub next_id : Action (World B G) Identifier
  next_id w =
      let (r, ids) = ports.new_id w.ids in
      (map_error r id_generation_failure, record w { ids = ids })

  -- `Envelope.create`, whose failure is a dependency's.
  unfoldable pub new_event : Identifier → String → WorkContext → Fields → Document → Result Envelope
  new_event id type work payload d =
      map_error
        (Events.create ports.byte_length (record {
          id = id;
          type = type;
          occurred_at = to_time ports.now;
          work = work;
          payload = payload;
          subject = some (record { kind = codes "document"; id = d.id });
          tenant = some d.organization_id;
        }))
        dependency_failure

  -- `writer.commit`
  unfoldable pub write : DocumentCommit → Action (World B G) (Unit {0})
  write input w =
      let (r, store, bus) = commit ports.publish input w.store w.bus in
      (r, record w { store = store; bus = bus })

  -- The event and the commit of a document that changed.
  unfoldable pub save_changed :
      Process → ProcessDocumentCommand → Document → Action (World B G) ProcessDocumentResult
  save_changed action command changed = do
    event_id ← next_id
    event ←
        lift
          (new_event event_id (event_type_of action) command.work (process_payload changed) changed)
    on_error dependency_failure
        (write (record { mode = update; document = changed; event = event; work = command.work }))
    pure (result_of changed)

  -- `ProcessDocument.execute`
  unfoldable pub process_document :
      Process → ProcessDocumentCommand → DocumentStore → Action (World B G) ProcessDocumentResult
  process_document action command read = do
    lift (require (str_eq command.work.operation (operation_of action)) invalid_operation)
    current ← lift (document_in command.organization_id (get command.document_id read))
    changed ← lift (transition current action ports.now command)
    if same_document changed current
        then pure (result_of changed)
        else save_changed action command changed

  -- `ArchiveDocument.execute`
  unfoldable pub archive_document :
      ArchiveDocumentCommand → DocumentStore → Action (World B G) ArchiveDocumentResult
  archive_document command read = do
    lift (require (str_eq command.work.operation "document.archive") invalid_operation)
    view ← lift (
        map_error (ports.find_access command.session_token command.organization_id)
          dependency_failure)
    access ← lift (manager_of (failure Kind.forbidden "document.archive_forbidden") view)
    current ← lift (document_in command.organization_id (get command.document_id read))
    changed ← lift (Document.archive current ports.now)
    event_id ← next_id
    event ← lift (
        new_event event_id "document.archived.v1" command.work
          (archive_payload changed access.identity_id
            (elim changed.archived_at [ none ↦ undefined | some t ↦ string (ports.iso_string t) ]))
          changed)
    on_error dependency_failure
        (write (record { mode = update; document = changed; event = event; work = command.work }))
    pure (record { document_id = changed.id; archived_at = changed.archived_at })

  -- `CreateDocument.execute`
  unfoldable pub create_document : CreateDocumentCommand → Action (World B G) CreateDocumentResult
  create_document command = do
    lift (require (str_eq command.work.operation "document.create") invalid_operation)
    view ← lift (
        map_error (ports.find_access command.session_token command.organization_id)
          dependency_failure)
    access ← lift (member_of (failure Kind.forbidden "document.access_forbidden") view)
    id ← next_id
    document ← lift (
        Document.create (record {
          id = id;
          organization_id = command.organization_id;
          name = command.name;
          storage_key = command.storage_key;
          created_at = ports.now;
        }))
    event_id ← next_id
    event ← lift (
        new_event event_id "document.created.v1" command.work
          (create_payload document access.identity_id) document)
    on_error dependency_failure
        (write (record { mode = create; document = document; event = event; work = command.work }))
    pure (record {
      document_id = document.id;
      organization_id = document.organization_id;
      name = document.name;
      storage_key = document.storage_key;
    })

-- `CheckDocumentProcessable.execute`
unfoldable pub check_processable : Identifier → Identifier → DocumentStore → Result (Unit {0})
check_processable organization id read = document_in organization (get id read) >>>= λ d.
    elim d.status [
      | archived ↦ err (failure Kind.invalid "document.archived")
      | processed ↦ err (failure Kind.invalid "document.already_processed")
      | _ ↦ ok tt
    ]
