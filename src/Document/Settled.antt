-- ===== src/Document/Settled.antt =====
-- A processing outcome that was applied changes nothing when it is applied again
-- (src/modules/document/app/commands/process-document.ts).
use n2f_nest.Prelude.{◌≡◌, refl, sym, ap, ◌∙◌, Bool, true, false, Option, none, some, arith}
use n2f_nest.Shared.Errors.{Failure, ok, require, Ensures, ensured}
use n2f_nest.Shared.Numbers.{Number}
use n2f_nest.Shared.Dates.{Time, Date, time}
use n2f_nest.Shared.Text.{text_eq, text_beq_iff}
use n2f_nest.Shared.Ids.{Identifier}
use n2f_nest.Document.Document.{
  Document, DocumentStatus, active, processing, processed, processing_failed, archived, saved,
  Report, retrying, succeeded, failed, ProcessingOutcome, is_stale, report,
  apply_processing_outcome,
}
use n2f_nest.Document.Commands.{
  Process, begin, retry, complete, fail, attempt_or_zero, report_of, transition,
  ProcessDocumentCommand, same_status, same_run, same_document, result_of, document_in,
}

abbrev pub is_outcome : Process → Bool
is_outcome begin = false
is_outcome _ = true

same_status_refl : (s : DocumentStatus) → same_status s s ≡ true
same_status_refl active = refl
same_status_refl processing = refl
same_status_refl processed = refl
same_status_refl processing_failed = refl
same_status_refl archived = refl

same_run_refl : (r : Option Identifier) → same_run r r ≡ true
same_run_refl none = refl
same_run_refl (some a) = (text_beq_iff a a).1 refl

pub same_document_refl : (d : Document) → same_document d d ≡ true
unfolding same_document
same_document_refl d = ground (arith, same_status_refl d.status, same_run_refl d.processing_run)

abbrev outcome_of : Identifier → Number → Report → ProcessingOutcome
outcome_of run n r = record { run = run; attempt = n; result = r }

-- A document that an outcome returns with the same status, run and attempt is the document itself.
applied-same :
    (d : Document) (at : Date) (run : Identifier) (n : Number) (r : Report)
    → Ensures
        (λ e. same_document e d ≡ true → e ≡ d)
        (apply_processing_outcome d at (outcome_of run n r))
unfolding apply_processing_outcome report is_stale same_document
applied-same d at run n (failed c) = ground arith
applied-same d at run n succeeded = ground arith
applied-same d at run n retrying = ground arith

-- An outcome that was applied and stored changes nothing when it is applied again, at any time.
applied_again :
    (d : Document) (at : Date) (again : Time) (run : Identifier) (n : Number) (r : Report)
    → Ensures
        (λ e.
          (apply_processing_outcome e (time again) (outcome_of run n r) ≡ ok e)
          × (apply_processing_outcome (saved e) (time again) (outcome_of run n r) ≡ ok (saved e)))
        (apply_processing_outcome d at (outcome_of run n r))
unfolding apply_processing_outcome report is_stale saved
applied_again d at again run n (failed c) = ground (arith, text_beq_iff run run)
applied_again d at again run n succeeded = ground (arith, text_beq_iff run run)
applied_again d at again run n retrying = ground (arith, text_beq_iff run run)

applied-id :
    (d : Document) (at : Date) (run : Identifier) (n : Number) (r : Report)
    → Ensures
        (λ e. (e.id ≡ d.id) × (e.organization_id ≡ d.organization_id))
        (apply_processing_outcome d at (outcome_of run n r))
unfolding apply_processing_outcome report is_stale
applied-id d at run n (failed c) = ground arith
applied-id d at run n succeeded = ground arith
applied-id d at run n retrying = ground arith

pub require-ok : (b : Bool) (e : Failure) {u : Unit {0}} → require b e ≡ ok u → b ≡ true
require-ok b e h = ground arith

pub result-saved : (d : Document) → result_of (saved d) ≡ result_of d
unfolding result_of saved
result-saved d = refl

-- The facts of a transition by an outcome.
pub record Settles (d : Document) (action : Process) (command : ProcessDocumentCommand)
    (again : Time) (e : Document) : Type 0 where
  pub id : e.id ≡ d.id
  pub organization_id : e.organization_id ≡ d.organization_id
  pub same : same_document e d ≡ true → e ≡ d
  pub repeats : transition e action (time again) command ≡ ok e
  pub repeats_saved : transition (saved e) action (time again) command ≡ ok (saved e)

transition-outcome :
    (d : Document) (action : Process) (at : Date) (command : ProcessDocumentCommand)
    → is_outcome action ≡ true
    → transition d action at command
      ≡ apply_processing_outcome d at (
          outcome_of command.processing_run
            (attempt_or_zero command.attempt)
            (report_of action command.failure_code))
unfolding transition
transition-outcome d begin at command h = cc
transition-outcome d retry at command h = refl
transition-outcome d complete at command h = refl
transition-outcome d fail at command h = refl

pub transition-Settles :
    (d e : Document) (action : Process) (at : Date) (again : Time)
    (command : ProcessDocumentCommand)
    → is_outcome action ≡ true
    → transition d action at command ≡ ok e
    → Settles d action command again e
transition-Settles d e action at again command h moved =
    let run = command.processing_run in
    let n = attempt_or_zero command.attempt in
    let r = report_of action command.failure_code in
    let applied = sym (transition-outcome d action at command h) ∙ moved in
    let (id, organization) = ensured _ _ (applied-id d at run n r) applied in
    let (first, second) = ensured _ _ (applied_again d at again run n r) applied in
    record {
      id = id;
      organization_id = organization;
      same = ensured _ _ (applied-same d at run n r) applied;
      repeats = transition-outcome e action (time again) command h ∙ first;
      repeats_saved = transition-outcome (saved e) action (time again) command h ∙ second;
    }

pub document_in-ok :
    (organization : Identifier) (o : Option Document) (d : Document)
    → document_in organization o ≡ ok d
    → (o ≡ some d) × (d.organization_id ≡ organization)
unfolding document_in
document_in-ok organization none d h = cc
document_in-ok organization (some e) d h =
    let same : e ≡ d = ground arith in
    (ap some same, (text_beq_iff d.organization_id organization).0 (ground arith))
