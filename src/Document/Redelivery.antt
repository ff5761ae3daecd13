-- ===== src/Document/Redelivery.antt =====
-- Outcomes of processing runs are delivered at least once
-- (src/modules/document/app/commands/process-document.ts).
use text.Mathlib.Text.{◌==◌ as str_eq}
use n2f_nest.Prelude.{◌≡◌, refl, sym, ap, subst, ◌∙◌, true, some}
use n2f_nest.Prelude.Maps.{get, set}
use n2f_nest.Shared.Errors.{Result, ok, is_ok}
use n2f_nest.Shared.Dates.{Time, time}
use n2f_nest.Shared.Text.{text_eq, text_beq_iff}
use n2f_nest.Shared.Effects.{◌>>=◌}
use n2f_nest.Shared.Tables.{Every, get-set_same}
use n2f_nest.Document.Document.{Document, saved}
use n2f_nest.Document.Commands.{
  Ports, World, Process, operation_of, transition, ProcessDocumentCommand, ProcessDocumentResult,
  result_of, document_in, process_document,
}
use n2f_nest.Document.Settled.{same_document_refl, transition-Settles, result-saved, is_outcome}
use n2f_nest.Document.Processed.{Processed, kept, stored, refused, process_document-Processed}

-- `execute`, where it finds a document that the command does not change.
unchanged :
    {B G : Type 0} (ports : Ports B G) (action : Process) (command : ProcessDocumentCommand)
    (w : World B G) (d : Document)
    → str_eq command.work.operation (operation_of action) ≡ true
    → get command.document_id w.store ≡ some d
    → d.organization_id ≡ command.organization_id
    → transition d action ports.now command ≡ ok d
    → process_document ports action command w.store w ≡ (ok (result_of d), w)
unfolding process_document document_in ◌>>=◌
unchanged ports action command w d named found place moved =
    rw
      (
        named,
        found,
        (text_beq_iff d.organization_id command.organization_id).1 place,
        moved,
        same_document_refl d,
      )
      refl

module _ {B G : Type 0} (ports : Ports B G) (action : Process) (command : ProcessDocumentCommand)
    (w : World B G) (again : Time) where
  abbrev later_ports : Ports B G
  later_ports = record ports { now = time again }

  settled_again :
      (r : Result ProcessDocumentResult × World B G)
      → Every (λ k d. d.id ≡ k) w.store
      → is_outcome action ≡ true
      → Processed ports action command w.store w r
      → is_ok r.0 ≡ true
      → process_document later_ports action command r.1.store r.1 ≡ r
  unfolding saved
  settled_again _ keyed outcome (kept {d} {e} named found place moved same) h =
      let s = transition-Settles d e action ports.now again command outcome moved in
      let is = s.same same in
      unchanged later_ports action command w e named
        (subst (λ x. get command.document_id w.store ≡ some x) (sym is) found)
        (s.organization_id ∙ place) s.repeats
  settled_again _ keyed outcome
        (stored {d} {e} {after} event named found place moved checked written) h =
      let s = transition-Settles d e action ports.now again command outcome moved in
      let id = s.id ∙ keyed command.document_id d found in
      let there : get command.document_id after.store ≡ some (saved e) =
        subst (λ x. get command.document_id x ≡ some (saved e)) (sym written)
          (subst (λ k. get k (set e.id (saved e) w.store) ≡ some (saved e)) id
            (get-set_same e.id (saved e) w.store)) in
      unchanged later_ports action command after (saved e) named there (s.organization_id ∙ place)
        s.repeats_saved
      ∙ ap (λ x. (ok x, after)) (result-saved e)
  settled_again _ keyed outcome (refused e) h = cc

  -- In a store whose documents stand under their IDs, the report of an outcome that succeeded is repeated at any later or earlier
  -- time with the same answer, and changes nothing: not the store, not the bus, not the generator of IDs.
  pub process_document-redelivered :
      Every (λ k d. d.id ≡ k) w.store
      → is_outcome action ≡ true
      → let first = process_document ports action command w.store w in
        is_ok first.0 ≡ true
        → process_document later_ports action command first.1.store first.1 ≡ first
  process_document-redelivered keyed outcome h =
      settled_again _ keyed outcome (process_document-Processed ports action command w.store w) h
