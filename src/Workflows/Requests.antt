-- ===== src/Workflows/Requests.antt =====
-- The workflow on concrete stores, at which its theorems are applied.
use n2f_nest.Prelude.{◌≡◌, refl, some, none, [], ◌∷◌, arith}
use n2f_nest.Shared.Errors.{ok}
use n2f_nest.Shared.Numbers.{nat}
use n2f_nest.Shared.Dates.{time}
use n2f_nest.Shared.Text.{text_eq, codes}
use n2f_nest.Shared.Values.{string, number}
use n2f_nest.Shared.Ids.{IsId, parse, parse-IsId, is_canonical}
use n2f_nest.Shared.Work.{WorkContext}
use n2f_nest.Shared.Events.{Envelope}
use n2f_nest.Organization.Organization
use n2f_nest.Organization.Organization.{Organization}
use n2f_nest.Organization.Membership
use n2f_nest.Organization.Membership.{Membership}
use n2f_nest.Organization.Store.{OrganizationStore}
use n2f_nest.Organization.Access.{get_organization_membership}
use n2f_nest.Jobs.Job
use n2f_nest.Jobs.Job.{Job}
use n2f_nest.Jobs.History.Safety.{empty-IsSafe}
use n2f_nest.Jobs.Commands.{Access, admin}
use n2f_nest.Jobs.Commands as JobCommands
use n2f_nest.Jobs.Commands.Transition.{event_type_of, transition_payload}
use n2f_nest.Document.Examples.{document_id, run_id}
use n2f_nest.Document.Requests as DocumentRequests
use n2f_nest.Workflows.JobEvents.{OutcomeAction, document_processing_job_kind, decode_job_event}
use n2f_nest.Workflows.Processing.{
  Ports, World, RequestDocumentProcessingCommand, request_processing,
}
use n2f_nest.Workflows.Contract.{IsDocumentJob, outcome_for, decode_job_event-transition}
use n2f_nest.Workflows.Waiting.{Requested, request_processing-Requested}

document-IsId : IsId document_id
unfolding parse is_canonical
document-IsId = parse-IsId (string document_id) document_id refl

run-IsId : IsId run_id
unfolding parse is_canonical
run-IsId = parse-IsId (string run_id) run_id refl

abbrev failed_job : Job
failed_job = record {
  id = run_id;
  organization_id = document_id;
  kind = document_processing_job_kind;
  subject = some (record { type = codes "document"; id = document_id });
  status = Job.failed;
  attempts = 2;
  max_attempts = 2;
  created_at = 1000;
  updated_at = 3000;
  started_at = some 2000;
  finished_at = some 3000;
  failure_code = some (codes "out.of.memory");
  version = 4;
}

failed-IsDocumentJob : IsDocumentJob failed_job document_id
failed-IsDocumentJob = record {
  kind = refl;
  subject = refl;
  id_valid = run-IsId;
  organization_valid = document-IsId;
  document_valid = document-IsId;
  attempts_safe = omega arith;
}

abbrev work : WorkContext
work = record { work_id = run_id; operation = "document.processing.request"; context = codes "{}" }

abbrev worker : Access
worker = record { organization_id = document_id; identity_id = run_id; role = admin }

abbrev failure_event : Envelope
failure_event = record {
  id = run_id;
  type = event_type_of Job.fails;
  occurred_at = 3000;
  work = work;
  payload = transition_payload failed_job worker;
  subject = none;
  tenant = none;
}

decode_job_event-transition_example :
    decode_job_event failure_event
    ≡ ok (some (outcome_for failed_job document_id (OutcomeAction.fails (codes "out.of.memory"))))
decode_job_event-transition_example =
    decode_job_event-transition failed_job worker Job.fails failure_event document_id
      failed-IsDocumentJob refl refl

abbrev job_ports : JobCommands.Ports (Unit {0}) (Unit {0})
job_ports = record {
  publish = DocumentRequests.bus;
  new_id = λ g. (ok run_id, g);
  byte_length = λ e. 100;
  now = time 8640000000004000;
  find_access = λ token organization. ok none;
}

abbrev ports : Ports (Unit {0}) (Unit {0})
ports = record {
  documents = DocumentRequests.ports;
  jobs = job_ports;
  find_current = λ token. ok run_id;
  child_work = λ parent operation. ok (record parent { operation = operation });
}

abbrev organization : Organization
organization = record {
  id = document_id;
  name = codes "Nest";
  slug = codes "nest";
  status = Organization.active;
  created_at = 1000;
  updated_at = 1000;
  version = 1;
}

abbrev membership : Membership
membership = record {
  id = run_id;
  organization_id = document_id;
  identity_id = run_id;
  role = Membership.owner;
  status = Membership.active;
  created_at = 1000;
  updated_at = 1000;
  revoked_at = none;
  version = 1;
}

abbrev organizations : OrganizationStore
organizations = record {
  organizations = (document_id, organization) ∷ [];
  memberships = (run_id, membership) ∷ [];
  invitations = [];
}

abbrev world : World (Unit {0}) (Unit {0})
world = record { documents = DocumentRequests.one_waiting; jobs = []; bus = tt; ids = tt }

abbrev command : RequestDocumentProcessingCommand
command = record {
  session_token = codes "token";
  organization_id = document_id;
  document_id = document_id;
  max_attempts = number (nat 3);
  work = work;
}

request_processing-Requested_example :
    Requested
      (get_organization_membership ports.find_current command.session_token document_id
        organizations)
      command
      world
      (request_processing ports command organizations world)
request_processing-Requested_example =
    request_processing-Requested ports command organizations world document-IsId empty-IsSafe
      DocumentRequests.keyed
