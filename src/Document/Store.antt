-- ===== src/Document/Store.antt =====
-- src/modules/document/infra/in-memory: the document store and its writer.
use n2f_nest.Prelude.{
  ◌≡◌, ◌⊎◌, inl, inr, true, false, ◌&&◌, Option, none, some, ◌==◌, Option-cases, if◌then◌else◌,
  is_some,
}
use n2f_nest.Prelude.Maps.{get, set, delete, ◌===◌, set-set_back, delete-set_new}
use n2f_nest.Shared.Errors.{Kind, failure, Failure, Result, ok, err, is_ok, require, refuse, ◌>>◌}
use n2f_nest.Shared.Text.{text_eq}
use n2f_nest.Shared.Ids.{Identifier}
use n2f_nest.Shared.Tables.{Table}
use n2f_nest.Shared.Work.{WorkContext}
use n2f_nest.Shared.Events.{Envelope, assert_event_work}
use n2f_nest.Shared.Effects.{Action}
use n2f_nest.Shared.Transactions.{transact, transact_all_or_nothing, transact_cases}
use n2f_nest.Document.Document.{Document, saved}

-- InMemoryDocumentStore
abbrev pub DocumentStore : Type 0
DocumentStore = Table Document

pub data Mode : Type 0 where
  create update : Mode

pub record DocumentCommit : Type 0 where
  pub mode : Mode
  pub document : Document
  pub event : Envelope
  pub work : WorkContext

abbrev pub stale_write : Failure
stale_write = failure Kind.conflict "document.stale_write"

abbrev pub document_exists : Failure
document_exists = failure Kind.conflict "document.already_exists"

abbrev pub document_not_found : Failure
document_not_found = failure Kind.not_found "document.not_found"

-- The checks of the update, on the document that is stored.
unfoldable pub check_update : Document → Option Document → Result (Unit {0})
check_update document none = err document_not_found
check_update document (some previous) =
    require (previous.organization_id === document.organization_id)
      (failure Kind.conflict "document.organization_mismatch")
    >> require (previous.version == document.version) stale_write

unfoldable pub check : DocumentCommit → DocumentStore → Result (Unit {0})
check input store = assert_event_work input.event input.work >> elim input.mode [
  | create ↦ refuse (is_some (get input.document.id store)) document_exists
  | update ↦ check_update input.document (get input.document.id store)
]

-- What the failed publication undoes.
abbrev pub undo : Identifier → Option Document → DocumentStore → DocumentStore
undo id none store = delete id store
undo id (some previous) store = set id previous store

undo-set :
    (id : Identifier) (d : Document) (store : DocumentStore)
    → undo id (get id store) (set id d store) ≡ store
undo-set id d store = elim (Option-cases (get id store)) [
  | inl e ↦ rw e (delete-set_new id d store e)
  | inr (previous, e) ↦ rw e (set-set_back id previous d store e)
]

module _ {B : Type 0} (publish : Envelope → Action B (Unit {0})) where
  -- `InMemoryDocumentWriter.commit`
  unfoldable pub commit : DocumentCommit → DocumentStore → B → Result (Unit {0}) × DocumentStore × B
  commit input store =
      let id = input.document.id in
      let written = set id (saved input.document) store in
      transact store written (undo id (get id store) written) (check input store)
        (publish input.event)

module _ {B : Type 0} (publish : Envelope → Action B (Unit {0})) (input : DocumentCommit)
    (store : DocumentStore) (bus : B) where
  -- A commit succeeds exactly when its checks pass and its event is handed on. Then the store holds
  -- the saved document under its ID; in every other case the store is the one before.
  pub document_all_or_nothing :
      let done = is_ok (check input store) && is_ok (publish input.event bus).0 in
      let after = commit publish input store bus in
      (is_ok after.0 ≡ done)
      × (after.1 ≡ (if done then set input.document.id (saved input.document) store else store))
  unfolding commit
  document_all_or_nothing =
      transact_all_or_nothing store _ _ (check input store) (publish input.event) bus
        λ passed. undo-set input.document.id (saved input.document) store

  pub document_cases :
      let after = commit publish input store bus in
      ((is_ok after.0 ≡ false) × (after.1 ≡ store))
      ⊎ ((is_ok after.0 ≡ true)
          × (after.1 ≡ set input.document.id (saved input.document) store)
          × (check input store ≡ ok tt))
  unfolding commit
  document_cases =
      transact_cases store _ _ (check input store) (publish input.event) bus
        λ passed. undo-set input.document.id (saved input.document) store
