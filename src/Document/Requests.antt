-- ===== src/Document/Requests.antt =====
-- Commands on a concrete store, at which the theorems about those of src/modules/document/app are applied.
use n2f_nest.Prelude.{◌≡◌, refl, true, some, none, [], ◌&&◌, if◌then◌else◌}
use n2f_nest.Prelude.Maps.{get, set}
use n2f_nest.Shared.Errors.{ok, is_ok}
use n2f_nest.Shared.Numbers.{nat}
use n2f_nest.Shared.Dates.{time}
use n2f_nest.Shared.Text.{text_eq, codes, is_name}
use n2f_nest.Shared.Values.{undefined, end}
use n2f_nest.Shared.Events.{Envelope, create, is_versioned, assert_event_work}
use n2f_nest.Shared.Effects.{Action, ◌>>=◌}
use n2f_nest.Shared.Ids.{parse, is_canonical}
use n2f_nest.Shared.Tables.{Every, set-Every}
use n2f_nest.Shared.Transactions.{transact}
use n2f_nest.Document.Document.{saved, apply_processing_outcome, is_stale, report}
use n2f_nest.Document.Store.{
  DocumentStore, DocumentCommit, update, check, check_update, commit, document_all_or_nothing,
}
use n2f_nest.Document.Commands.{
  Ports, World, complete, transition, document_in, same_document, save_changed, new_event, next_id,
  write, ProcessDocumentCommand, process_document,
}
use n2f_nest.Document.Redelivery.{process_document-redelivered}
use n2f_nest.Document.Examples.{document_id, run_id, waiting}

abbrev pub bus : Envelope → Action (Unit {0}) (Unit {0})
bus e b = (ok tt, b)

abbrev pub ports : Ports (Unit {0}) (Unit {0})
ports = record {
  publish = bus;
  new_id = λ g. (ok run_id, g);
  byte_length = λ e. 100;
  now = time 8640000000004000;
  find_access = λ token organization. ok none;
  iso_string = λ t. codes "1970-01-01T00:00:04.000Z";
}

abbrev pub one_waiting : DocumentStore
one_waiting = set document_id waiting []

abbrev world : World (Unit {0}) (Unit {0})
world = record { store = one_waiting; bus = tt; ids = tt }

abbrev completion : ProcessDocumentCommand
completion = record {
  organization_id = document_id;
  document_id = document_id;
  processing_run = run_id;
  attempt = some (nat 1);
  failure_code = undefined;
  work = record {
    work_id = run_id;
    operation = "document.processing.complete";
    context = codes "{}";
  };
}

abbrev no_documents : DocumentStore
no_documents = []

none_there : Every (λ k d. d.id ≡ k) no_documents
unfolding get
none_there k d h = cc

pub keyed : Every (λ k d. d.id ≡ k) one_waiting
keyed = set-Every (λ k d. d.id ≡ k) document_id waiting [] none_there refl

completed : is_ok (process_document ports complete completion one_waiting world).0 ≡ true
unfolding process_document transition apply_processing_outcome is_stale report get set document_in
    ◌>>=◌ save_changed next_id write new_event create is_versioned is_canonical parse commit check
    check_update assert_event_work transact same_document is_name
completed = refl

process_document-redelivered_example :
    let first = process_document ports complete completion one_waiting world in
    process_document (record ports { now = time 9000 }) complete completion first.1.store first.1
    ≡ first
process_document-redelivered_example =
    process_document-redelivered ports complete completion world 9000 keyed refl completed

abbrev update_of_waiting : DocumentCommit
update_of_waiting = record {
  mode = update;
  document = waiting;
  event = record {
    id = run_id;
    type = "document.processing.started.v1";
    occurred_at = 4000;
    work = completion.work;
    payload = end;
    subject = none;
    tenant = none;
  };
  work = completion.work;
}

document_all_or_nothing_example :
    let done =
      is_ok (check update_of_waiting one_waiting) && is_ok (bus update_of_waiting.event tt).0 in
    let after = commit bus update_of_waiting one_waiting tt in
    (is_ok after.0 ≡ done)
    × (after.1 ≡ (if done then set document_id (saved waiting) one_waiting else one_waiting))
document_all_or_nothing_example = document_all_or_nothing bus update_of_waiting one_waiting tt
