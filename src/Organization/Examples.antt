-- ===== src/Organization/Examples.antt =====
-- A concrete organization with its owner and an invitation, at which the theorems about src/modules/organization
-- are applied.
use n2f_nest.Prelude.{◌≡◌, refl, none, some, [], ◌∷◌}
use n2f_nest.Prelude.Maps.{get, set}
use n2f_nest.Shared.Errors.{ok}
use n2f_nest.Shared.Dates.{time}
use n2f_nest.Shared.Text.{codes, text_eq, trim, trim_start}
use n2f_nest.Shared.Values.{string, end}
use n2f_nest.Shared.Ids.{Identifier}
use n2f_nest.Shared.Work.{WorkContext}
use n2f_nest.Shared.Events.{Envelope, assert_event_work}
use n2f_nest.Shared.Effects.{Action, ◌>>=◌}
use n2f_nest.Shared.Tables.{head, none-Among, empty-IsTable}
use n2f_nest.Shared.Transactions.{assert_events, publish_all, transact}
use n2f_nest.Organization.Organization
use n2f_nest.Organization.Organization.{Organization, slug_of, name_of, is_slug}
use n2f_nest.Organization.Membership
use n2f_nest.Organization.Membership.{Membership, role_of}
use n2f_nest.Organization.Invitation
use n2f_nest.Organization.Invitation.{Invitation}
use n2f_nest.Organization.Terms.{invitation_step}
use n2f_nest.Organization.Store.{organization_by_slug, invitations_for_identity}
use n2f_nest.Organization.Writers.{
  check_organization, check_stored_invitation, has_pending, check_invitation, commit_organization,
  commit_invitation,
}
use n2f_nest.Organization.History.{
  System, Step, creates, invites, revokes, reads_membership, reads_invitation, unmoved, next,
  IsSafe,
}
use n2f_nest.Organization.History.Safety.{organizations-IsSafe}
use n2f_nest.Organization.History.Owners.{owner_kept}
use n2f_nest.Organization.History.Closed.{closed_kept}

abbrev pub bus : Envelope → Action (Unit {0}) (Unit {0})
bus e b = (ok tt, b)

abbrev pub work : WorkContext
work = record { work_id = codes "w"; operation = "organization.create"; context = codes "{}" }

abbrev pub event : Envelope
event = record {
  id = codes "e";
  type = "organization.created.v1";
  occurred_at = 1000;
  work = work;
  payload = end;
  subject = none;
  tenant = none;
}

abbrev pub founder : Identifier
founder = codes "founder"

abbrev pub organization : Organization
organization = record {
  id = codes "o";
  name = codes "Signal Arts";
  slug = codes "signal-arts";
  status = Organization.active;
  created_at = 1000;
  updated_at = 1000;
  version = 0;
}

abbrev pub owner_membership : Membership
owner_membership = record {
  id = codes "m";
  organization_id = codes "o";
  identity_id = founder;
  role = Membership.owner;
  status = Membership.active;
  created_at = 1000;
  updated_at = 1000;
  revoked_at = none;
  version = 0;
}

abbrev pub stored_owner : Membership
stored_owner = record owner_membership { version = 1 }

abbrev empty : System
empty = record {
  store = record { organizations = []; memberships = []; invitations = [] };
  memberships_read = [];
  invitations_read = [];
}

empty-IsSafe : IsSafe empty
unfolding get
empty-IsSafe = record {
  sound = record {
    organizations = empty-IsTable _ _;
    memberships = empty-IsTable _ _;
    invitations = empty-IsTable _ _;
    slugs = λ i k a b h g c. cc;
    alone = λ i k a b h g c. cc;
    one_pending = λ i k a b h g c. cc;
    placed = λ k a h. cc;
    invited = λ k a h. cc;
    placed_read = λ m a. absurd (none-Among m a);
    invited_read = λ i a. absurd (none-Among i a);
  };
  owned = λ k a h. cc;
}

abbrev pub founded : System
founded = record {
  store = record {
    organizations = (codes "o", record organization { version = 1 }) ∷ [];
    memberships = (codes "m", stored_owner) ∷ [];
    invitations = [];
  };
  memberships_read = [];
  invitations_read = [];
}

abbrev found_input : Organization.CreateOrganizationInput
found_input = record {
  id = codes "o";
  name = string (codes " Signal Arts ");
  slug = string (codes "Signal-Arts");
  created_at = time 1000;
}

founds : Step bus empty founded
unfolding Organization.create name_of slug_of is_slug trim trim_start Membership.add role_of
    commit_organization check_organization transact publish_all assert_events assert_event_work
    organization_by_slug get set Organization.saved Membership.saved ◌>>=◌
founds =
    creates empty found_input (codes "m") founder organization owner_membership (event ∷ event ∷ [])
      work tt refl refl

pub founded-IsSafe : IsSafe founded
founded-IsSafe = organizations-IsSafe bus empty-IsSafe (next unmoved founds)

organizations-IsSafe_example : IsSafe founded
organizations-IsSafe_example = organizations-IsSafe bus empty-IsSafe (next unmoved founds)

abbrev pub known : System
known = record founded { memberships_read = stored_owner ∷ [] }

reads_owner : Step bus founded known
unfolding get
reads_owner = reads_membership founded (codes "m") stored_owner refl

owner_kept_example : get (codes "m") known.store.memberships ≡ some stored_owner
unfolding get
owner_kept_example =
    owner_kept bus (codes "m") stored_owner (next unmoved reads_owner) founded-IsSafe refl refl

abbrev pub invitation : Invitation
invitation = record {
  id = codes "i";
  organization_id = codes "o";
  identity_id = codes "guest";
  role = Invitation.admin;
  status = Invitation.pending;
  created_at = 2000;
  updated_at = 2000;
  expires_at = 9000;
  accepted_at = none;
  revoked_at = none;
  version = 0;
}

abbrev pub pending_invitation : Invitation
pending_invitation = record invitation { version = 1 }

abbrev pub inviting : System
inviting = record known {
  store = record known.store { invitations = (codes "i", pending_invitation) ∷ [] };
}

invites_guest : Step bus known inviting
unfolding Invitation.issue Invitation.role_of commit_invitation check_invitation
    check_stored_invitation has_pending invitations_for_identity transact assert_event_work get set
    Invitation.saved
invites_guest =
    invites known
      (record {
        id = codes "i";
        organization_id = codes "o";
        identity_id = codes "guest";
        role = string (codes "admin");
        created_at = time 2000;
        expires_at = time 9000;
      })
      stored_owner invitation event work tt head
      (record { organization_id = refl; is_an_owner = refl; is_active = refl }) refl

abbrev pub considered : System
considered = record inviting { invitations_read = pending_invitation ∷ [] }

reads_pending : Step bus inviting considered
unfolding get
reads_pending = reads_invitation inviting (codes "i") pending_invitation refl

abbrev revoked_invitation : Invitation
revoked_invitation = record pending_invitation {
  status = Invitation.revoked;
  updated_at = 3000;
  revoked_at = some 3000;
}

abbrev closed : System
closed = record considered {
  store = record considered.store {
    invitations = (codes "i", record revoked_invitation { version = 2 }) ∷ [];
  };
}

revokes_pending : Step bus considered closed
unfolding invitation_step Invitation.revoke Invitation.transition_time commit_invitation
    check_invitation check_stored_invitation transact assert_event_work get set Invitation.saved
revokes_pending =
    revokes considered pending_invitation revoked_invitation (time 3000) event work tt head refl

closed-IsSafe : IsSafe closed
closed-IsSafe =
    organizations-IsSafe bus founded-IsSafe
      (next (next (next (next unmoved reads_owner) invites_guest) reads_pending) revokes_pending)

-- A second revocation, by a command that read the invitation before the first.
abbrev again : System
again = record closed {
  store =
      (commit_invitation bus
        (record { invitation = revoked_invitation; event = event; work = work }) closed.store tt).1;
}

revokes_again : Step bus closed again
unfolding invitation_step Invitation.revoke Invitation.transition_time
revokes_again =
    revokes closed pending_invitation revoked_invitation (time 3000) event work tt head refl

closed_kept_example :
    get (codes "i") again.store.invitations ≡ some (record revoked_invitation { version = 2 })
unfolding get
closed_kept_example =
    closed_kept bus (codes "i") (record revoked_invitation { version = 2 })
      (next unmoved revokes_again) closed-IsSafe refl refl
