-- ===== src/Workflows/Waiting.antt =====
-- What a request to process a document leaves stored
-- (src/workflows/document-processing/app/request-document-processing.ts).
use n2f_nest.Prelude.{◌≡◌, refl, sym, ap, subst, ◌∙◌, true, Option, none, some, [], arith}
use n2f_nest.Prelude.Maps.{get, set}
use n2f_nest.Shared.Errors.{Failure, Result, ok, err, Ensures, ensured}
use n2f_nest.Shared.Dates.{Date}
use n2f_nest.Shared.Text.{codes, text_eq, text_beq_iff}
use n2f_nest.Shared.Values.{undefined}
use n2f_nest.Shared.Ids.{Identifier, IsId}
use n2f_nest.Shared.Work.{WorkContext}
use n2f_nest.Shared.Effects.{pure, lift, ◌>>=◌, bind_cases, lift_cases}
use n2f_nest.Shared.Tables.{Every, get-set_same}
use n2f_nest.Organization.Store.{OrganizationStore, OrganizationMembershipView}
use n2f_nest.Organization.Access.{get_organization_membership}
use n2f_nest.Jobs.Store.{JobStore}
use n2f_nest.Jobs.History.{IsSafe}
use n2f_nest.Jobs.Commands.Submit.{SubmitWorkflowJobCommand, SubmitWorkflowJobResult}
use n2f_nest.Jobs.Commands.Ensured.{
  HasJob, Submitted, answered, failed_with, submit_workflow-Submitted,
}
use n2f_nest.Jobs.Commands as JobCommands
use n2f_nest.Document.Document.{
  Document, DocumentStatus, is_processing, processing, saved, begin_processing, is_run,
}
use n2f_nest.Document.Store.{DocumentStore}
use n2f_nest.Document.Commands
use n2f_nest.Document.Commands.{
  begin, transition, ProcessDocumentCommand, ProcessDocumentResult, same_run, same_document,
  process_document,
}
use n2f_nest.Document.Settled.{require-ok}
use n2f_nest.Document.Processed.{Processed, kept, stored, refused, process_document-Processed}
use n2f_nest.Workflows.JobEvents.{document_processing_job_kind}
use n2f_nest.Workflows.Processing.{
  Ports, World, RequestDocumentProcessingCommand, RequestDocumentProcessingResult, may_process,
  in_documents, request_processing,
}

-- The document waits on the run.
pub record IsWaiting (organization run : Identifier) (d : Document) : Type 0 where
  pub organization_id : d.organization_id ≡ organization
  pub status : d.status ≡ processing
  pub processing_run : d.processing_run ≡ some run

-- The document that stands under the ID waits on the run.
pub record HasWaiting (organization id run : Identifier) (store : DocumentStore) : Type 0 where
  pub document : Document
  pub found : get id store ≡ some document
  pub waits : IsWaiting organization run document

run_is : (r : Option Identifier) (run : Identifier) → is_run r run ≡ true → r ≡ some run
run_is none run h = cc
run_is (some a) run h = ap some ((text_beq_iff a run).0 h)

same_run_is :
    (run : Identifier) (r : Option Identifier) → same_run (some run) r ≡ true → r ≡ some run
same_run_is run none h = cc
same_run_is run (some a) h = ap some (sym ((text_beq_iff run a).0 h))

status_is : (s : DocumentStatus) → is_processing s ≡ true → s ≡ processing
status_is s h = ground arith

saved-IsWaiting :
    (d : Document) {organization run : Identifier}
    → IsWaiting organization run d
    → IsWaiting organization run (saved d)
unfolding saved
saved-IsWaiting d w = record {
  organization_id = w.organization_id;
  status = w.status;
  processing_run = w.processing_run;
}

-- A run that was begun.
begin-IsWaiting :
    (d : Document) (at : Date) (run : Identifier)
    → Ensures (λ e. (e.id ≡ d.id) × IsWaiting d.organization_id run e) (begin_processing d at run)
unfolding begin_processing
begin-IsWaiting d at run = ground (arith, run_is d.processing_run run, status_is d.status)

-- A document that begins with the same status and run was waiting already.
same-IsWaiting :
    (e d : Document) (run : Identifier)
    → IsWaiting d.organization_id run e
    → same_document e d ≡ true
    → IsWaiting d.organization_id run d
unfolding same_document
same-IsWaiting e d run waits same =
    ground (arith, same_run_is run d.processing_run, status_is d.status)

-- What a start that answers leaves, and one that fails.
module _ {B G : Type 0} (ports : Commands.Ports B G) (command : ProcessDocumentCommand)
    (w : Commands.World B G) where
  begun-HasWaiting :
      (r : Result ProcessDocumentResult × Commands.World B G) (b : ProcessDocumentResult)
      → Every (λ k d. d.id ≡ k) w.store
      → Processed ports begin command w.store w r
      → r.0 ≡ ok b
      → HasWaiting command.organization_id command.document_id command.processing_run r.1.store
  unfolding transition
  begun-HasWaiting _ b keyed (kept {d} {e} named found place moved same) h =
      let (id, waits) = ensured _ _ (begin-IsWaiting d ports.now command.processing_run) moved in
      record {
        document = d;
        found = found;
        waits =
            subst (λ o. IsWaiting o command.processing_run d) place
              (same-IsWaiting e d command.processing_run waits same);
      }
  begun-HasWaiting _ b keyed (stored {d} {e} {after} event named found place moved checked written)
        h =
      let (id, waits) = ensured _ _ (begin-IsWaiting d ports.now command.processing_run) moved in
      record {
        document = saved e;
        found =
            subst (λ s. get command.document_id s ≡ some (saved e)) (sym written)
              (subst (λ k. get k (set e.id (saved e) w.store) ≡ some (saved e))
                (id ∙ keyed command.document_id d found) (get-set_same e.id (saved e) w.store));
        waits = saved-IsWaiting e (subst (λ o. IsWaiting o command.processing_run e) place waits);
      }
  begun-HasWaiting _ b keyed (refused e) h = absurd (cc h)

  begun-err :
      (r : Result ProcessDocumentResult × Commands.World B G) (f : Failure)
      → Processed ports begin command w.store w r
      → r.0 ≡ err f
      → r.1.store ≡ w.store
  begun-err _ f (kept named found place moved same) h = refl
  begun-err _ f (stored event named found place moved checked written) h = absurd (cc h)
  begun-err _ f (refused same) h = same

-- The submission of the document's job; what the work names is not read of it.
abbrev submission_of : RequestDocumentProcessingCommand → WorkContext → SubmitWorkflowJobCommand
submission_of command work = record {
  organization_id = command.organization_id;
  kind = document_processing_job_kind;
  subject = record { type = codes "document"; id = command.document_id };
  max_attempts = command.max_attempts;
  work = work;
}

-- What a request did: it answered with an open job on which the document waits, to one who may process documents; or it failed,
-- and left the documents as they were.
pub data Requested {B G : Type 0} (membership : Result (Option OrganizationMembershipView))
    (command : RequestDocumentProcessingCommand) (before : World B G)
    : Result RequestDocumentProcessingResult × World B G → Type 0 where
  accepted :
      {r : RequestDocumentProcessingResult} {after : World B G}
      (view : Option OrganizationMembershipView)
      → membership ≡ ok view
      → may_process view ≡ true
      → HasJob (submission_of command command.work) r.job_id after.jobs
      → HasWaiting command.organization_id command.document_id r.job_id after.documents
      → Requested membership command before (ok r, after)
  rejected :
      {e : Failure} {after : World B G}
      → after.documents ≡ before.documents
      → Requested membership command before (err e, after)

submitted-HasJob :
    {B G : Type 0} (command : RequestDocumentProcessingCommand) (work : WorkContext)
    (store : JobStore) (r : Result SubmitWorkflowJobResult × JobCommands.World B G)
    (submitted : SubmitWorkflowJobResult)
    → Submitted (submission_of command work) store r
    → r.0 ≡ ok submitted
    → HasJob (submission_of command command.work) submitted.job_id r.1.store
submitted-HasJob command work store _ submitted (answered {r} {after} has) h =
    let same : r ≡ submitted = ground arith in
    subst (λ x. HasJob (submission_of command command.work) x.job_id after.store) same
      (record { job = has.job; stored = has.stored; opened = has.opened })
submitted-HasJob command work store _ submitted (failed_with same) h = absurd (cc h)

module _ {B G : Type 0} (ports : Ports B G) (command : RequestDocumentProcessingCommand)
    (organizations : OrganizationStore) (w : World B G) where
  abbrev membership : Result (Option OrganizationMembershipView)
  membership =
      get_organization_membership ports.find_current command.session_token command.organization_id
        organizations

  abbrev Out : Result RequestDocumentProcessingResult × World B G → Type 0
  Out = Requested membership command w

  abbrev start_of : Identifier → WorkContext → ProcessDocumentCommand
  start_of run work = record {
    organization_id = command.organization_id;
    document_id = command.document_id;
    processing_run = run;
    attempt = none;
    failure_code = undefined;
    work = work;
  }

  -- The rest of a request, from where its job is submitted.
  begun-Requested :
      (job_work : WorkContext) (submitted : SubmitWorkflowJobResult) (v : World B G)
      → v.documents ≡ w.documents
      → (view : Option OrganizationMembershipView) → membership ≡ ok view
      → may_process view ≡ true
      → Every (λ k d. d.id ≡ k) v.documents
      → HasJob (submission_of command command.work) submitted.job_id v.jobs
      → Out (
          (lift (ports.child_work job_work "document.processing.start") >>= λ begin_work.
          (λ x.
            in_documents
              (process_document ports.documents begin
                (start_of submitted.job_id begin_work)
                x.documents)
              x)
          >>= λ begun. pure (record {
            document_id = begun.document_id;
            job_id = submitted.job_id;
            document_status = begun.status;
            job_status = submitted.status;
            job_created = submitted.created;
          }))
            v)
  begun-Requested job_work submitted v same view seen allowed keyed has =
      lift_cases Out _ _ _ (λ e h. rejected same)
        λ begin_work made.
          let d : Commands.World B G = record { store = v.documents; bus = v.bus; ids = v.ids } in
          let start = start_of submitted.job_id begin_work in
          let done = process_document-Processed ports.documents begin start v.documents d in
          bind_cases Out _ _ v
            (λ e h. rejected (begun-err ports.documents start d _ e done h ∙ same))
            λ begun h.
              accepted view seen allowed has
                (begun-HasWaiting ports.documents start d _ begun keyed done h)

  -- Over jobs that are safe and documents that stand under their IDs: a request that answers came from an active owner or admin
  -- of an active organization, and leaves the job it names stored and open for the document, and the document processing, waiting
  -- on that job. A request that fails leaves the documents as they were.
  pub request_processing-Requested :
      IsId command.document_id
      → IsSafe (record { store = w.jobs; reads = [] })
      → Every (λ k d. d.id ≡ k) w.documents
      → Requested membership command w (request_processing ports command organizations w)
  unfolding request_processing
  request_processing-Requested valid safe keyed =
      lift_cases Out _ _ _ (λ e h. rejected refl)
        λ u named.
          lift_cases Out _ _ _ (λ e h. rejected refl)
            λ view seen.
              lift_cases Out _ _ _ (λ e h. rejected refl)
                λ u allowed.
                  bind_cases Out _ _ _ (λ e h. rejected refl)
                    λ u checked.
                      lift_cases Out _ _ _ (λ e h. rejected refl)
                        λ job_work made.
                          bind_cases Out _ _ _ (λ e h. rejected refl)
                            λ submitted h.
                              let has =
                                submitted-HasJob command job_work w.jobs _ submitted
                                  (submit_workflow-Submitted ports.jobs
                                    (submission_of command job_work)
                                    (record { store = w.jobs; bus = w.bus; ids = w.ids }) valid
                                    safe)
                                  h in
                              begun-Requested job_work submitted _ refl view seen
                                (require-ok _ _ allowed) keyed has
