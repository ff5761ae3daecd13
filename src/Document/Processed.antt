-- ===== src/Document/Processed.antt =====
-- What a processing command does (src/modules/document/app/commands/process-document.ts).
use text.Mathlib.Text.{◌==◌ as str_eq}
use n2f_nest.Prelude.{◌≡◌, refl, ap, ◌⊎◌, inl, inr, true, false, some, if◌then◌else◌, Bool-cases}
use n2f_nest.Prelude.Maps.{get, set}
use n2f_nest.Shared.Errors.{Failure, Result, ok, err, is_ok}
use n2f_nest.Shared.Text.{text_eq}
use n2f_nest.Shared.Events.{Envelope}
use n2f_nest.Shared.Effects.{pure, mapped, on_error, bind_cases, lift_cases}
use n2f_nest.Document.Failures.{dependency_failure}
use n2f_nest.Document.Document.{Document, saved}
use n2f_nest.Document.Store.{DocumentStore, DocumentCommit, update, check, document_cases}
use n2f_nest.Document.Commands.{
  Ports, World, Process, operation_of, transition, ProcessDocumentCommand, ProcessDocumentResult,
  same_document, result_of, write, next_id, save_changed, process_document,
}
use n2f_nest.Document.Settled.{document_in-ok, require-ok}

-- What `execute` did: it answered with the document as it is, or it stored what became of it; or it failed and stored nothing.
pub data Processed {B G : Type 0} (ports : Ports B G) (action : Process)
    (command : ProcessDocumentCommand) (read : DocumentStore) (w : World B G)
    : Result ProcessDocumentResult × World B G → Type 0 where
  kept :
      {d e : Document}
      → str_eq command.work.operation (operation_of action) ≡ true
      → get command.document_id read ≡ some d
      → d.organization_id ≡ command.organization_id
      → transition d action ports.now command ≡ ok e
      → same_document e d ≡ true
      → Processed ports action command read w (ok (result_of e), w)
  stored :
      {d e : Document} {after : World B G} (event : Envelope)
      → str_eq command.work.operation (operation_of action) ≡ true
      → get command.document_id read ≡ some d
      → d.organization_id ≡ command.organization_id
      → transition d action ports.now command ≡ ok e
      → check (record { mode = update; document = e; event = event; work = command.work }) w.store
        ≡ ok tt
      → after.store ≡ set e.id (saved e) w.store
      → Processed ports action command read w (ok (result_of e), after)
  refused :
      {e : Failure} {after : World B G}
      → after.store ≡ w.store
      → Processed ports action command read w (err e, after)

module _ {B G : Type 0} (ports : Ports B G) where
  mapped_cases :
      (P : Result (Unit {0}) × World B G → Type 0) (r : Result (Unit {0})) (v : World B G)
      → ((is_ok r ≡ false) → (e : Failure) → P (err e, v))
      → ((is_ok r ≡ true) → P (ok tt, v))
      → P (mapped dependency_failure (r, v))
  mapped_cases P (ok u) v bad good = good refl
  mapped_cases P (err e) v bad good = bad refl (dependency_failure e)

  write_cases :
      (input : DocumentCommit) (w : World B G)
      → ((is_ok (on_error dependency_failure (write ports input) w).0 ≡ false)
          × ((on_error dependency_failure (write ports input) w).1.store ≡ w.store))
        ⊎ ((is_ok (on_error dependency_failure (write ports input) w).0 ≡ true)
            × ((on_error dependency_failure (write ports input) w).1.store
                ≡ set input.document.id (saved input.document) w.store)
            × (check input w.store ≡ ok tt))
  unfolding write
  write_cases input w = elim (document_cases ports.publish input w.store w.bus) [
    | inl p ↦
        mapped_cases
          (λ r.
            ((is_ok r.0 ≡ false) × (r.1.store ≡ w.store))
            ⊎ ((is_ok r.0 ≡ true)
                × (r.1.store ≡ set input.document.id (saved input.document) w.store)
                × (check input w.store ≡ ok tt)))
          _ _ (λ e f. inl (refl, p.1)) (λ e. absurd (cc (p.0, e)))
    | inr p ↦
        mapped_cases
          (λ r.
            ((is_ok r.0 ≡ false) × (r.1.store ≡ w.store))
            ⊎ ((is_ok r.0 ≡ true)
                × (r.1.store ≡ set input.document.id (saved input.document) w.store)
                × (check input w.store ≡ ok tt)))
          _ _ (λ e f. absurd (cc (p.0, e))) (λ e. inr (refl, p.1, p.2))
  ]

  write-err :
      (input : DocumentCommit) (w : World B G) {e : Failure}
      → (on_error dependency_failure (write ports input) w).0 ≡ err e
      → (on_error dependency_failure (write ports input) w).1.store ≡ w.store
  write-err input w h = elim (write_cases input w) [
    | inl p ↦ p.1
    | inr p ↦ absurd (cc (p.0, ap is_ok h))
  ]

  write-ok :
      (input : DocumentCommit) (w : World B G) {u : Unit {0}}
      → (on_error dependency_failure (write ports input) w).0 ≡ ok u
      → ((on_error dependency_failure (write ports input) w).1.store
          ≡ set input.document.id (saved input.document) w.store)
        × (check input w.store ≡ ok tt)
  write-ok input w h = elim (write_cases input w) [
    | inl p ↦ absurd (cc (p.0, ap is_ok h))
    | inr p ↦ (p.1, p.2)
  ]

module _ {B G : Type 0} (ports : Ports B G) (action : Process) (command : ProcessDocumentCommand)
    (read : DocumentStore) (w : World B G) where
  abbrev Out : Result ProcessDocumentResult × World B G → Type 0
  Out = Processed ports action command read w

  -- The outcomes of `execute`, where the document was found and its transition succeeded.
  changed-Processed :
      (d e : Document)
      → str_eq command.work.operation (operation_of action) ≡ true
      → get command.document_id read ≡ some d
      → d.organization_id ≡ command.organization_id
      → transition d action ports.now command ≡ ok e
      → Out (
          (if same_document e d then pure (result_of e) else save_changed ports action command e) w)
  unfolding save_changed next_id
  changed-Processed d e named found place moved = elim (Bool-cases (same_document e d)) [
    | inl same ↦ rw same (kept named found place moved same)
    | inr other ↦ rw other (
        bind_cases Out _ _ w (λ f h. refused refl)
          λ id drawn.
            lift_cases Out _ _ _ (λ f h. refused refl)
              λ event made.
                bind_cases Out _ _ _ (λ f h. refused (write-err ports _ _ h))
                  λ u h.
                    let (after, checked) = write-ok ports _ _ h in
                    stored event named found place moved checked after)
  ]

  -- A processing command answers with the document as it is, or stores what the domain made of it, or fails and stores nothing.
  pub process_document-Processed :
      Processed ports action command read w (process_document ports action command read w)
  unfolding process_document
  process_document-Processed =
      lift_cases Out _ _ _ (λ e h. refused refl)
        λ u named.
          lift_cases Out _ _ _ (λ e h. refused refl)
            λ d found.
              lift_cases Out _ _ _ (λ e h. refused refl)
                λ e moved.
                  let (there, place) = document_in-ok command.organization_id _ d found in
                  changed-Processed d e (require-ok _ _ named) there place moved
