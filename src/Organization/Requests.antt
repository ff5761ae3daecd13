-- ===== src/Organization/Requests.antt =====
-- Commands and queries on a concrete store, at which the theorems about those of src/modules/organization/app
-- are applied.
use n2f_nest.Prelude.{◌≡◌, ◌↔◌, refl, subst, ◌&&◌, some, [], ◌∷◌, arith, if◌then◌else◌}
use n2f_nest.Prelude.Maps.{get, Distinct, ◌===◌}
use n2f_nest.Shared.Errors.{Result, ok, is_ok}
use n2f_nest.Shared.Dates.{time}
use n2f_nest.Shared.Text.{Text, codes, text_eq}
use n2f_nest.Shared.Ids.{Identifier}
use n2f_nest.Shared.Tables.{Among, head}
use n2f_nest.Shared.Transactions.{publish_all}
use n2f_nest.Organization.Organization.{Organization}
use n2f_nest.Organization.Membership
use n2f_nest.Organization.Membership.{Membership}
use n2f_nest.Organization.Invitation
use n2f_nest.Organization.Invitation.{Invitation}
use n2f_nest.Organization.Terms.{InvitationIsValid, invitation_row, restore-invitation_row}
use n2f_nest.Organization.Writers.{
  InvitationAcceptanceCommit, check_acceptance, with_acceptance, commit_acceptance,
}
use n2f_nest.Organization.Writes.{acceptance_all_or_nothing}
use n2f_nest.Organization.Commands.{Ports, World}
use n2f_nest.Organization.Commands.Accept.{AcceptInvitationCommand, accept_invitation}
use n2f_nest.Organization.Commands.Members.{RevokeMembershipCommand}
use n2f_nest.Organization.Commands.Reads.{Covers}
use n2f_nest.Organization.Commands.Steps.{Moves, store_after, command-Moves, accept_invitation_by}
use n2f_nest.Organization.Commands.Outcomes.{
  Guarded, run_owner_command, owner_command-Guarded, revokes_member,
}
use n2f_nest.Organization.Commands.Accepted.{AcceptOutcome, accept_invitation-Outcome}
use n2f_nest.Organization.Access.{find_access}
use n2f_nest.Organization.Granted.{HasAccess, access, find_access-HasAccess}
use n2f_nest.Organization.Examples.{
  bus, work, event, founder, stored_owner, founded, founded-IsSafe, pending_invitation, considered,
}

abbrev guest : Identifier
guest = codes "guest"

abbrev session : Text → Result Identifier
session token = if token === codes "g" then ok guest else ok founder

abbrev drawn : Identifier
drawn = codes "018f0000-0000-7000-8000-0000000000a1"

abbrev ports : Ports (Unit {0}) (Unit {0})
ports = record {
  publish = bus;
  new_id = λ g. (ok drawn, g);
  byte_length = λ e. 100;
  now = time 4000;
  find_current = session;
  find_active = λ identity. ok (some identity);
  iso_string = λ t. codes "1970-01-01T00:00:04.000Z";
}

abbrev world : World (Unit {0}) (Unit {0})
world = record { store = considered.store; bus = tt; ids = tt }

abbrev acceptance : AcceptInvitationCommand
acceptance = record {
  session_token = codes "g";
  organization_id = codes "o";
  invitation_id = codes "i";
  work = record work { operation = "organization.invitation.accept" };
}

accept_invitation-Outcome_example :
    AcceptOutcome ports acceptance considered.store world
      (accept_invitation ports acceptance considered.store world)
accept_invitation-Outcome_example =
    accept_invitation-Outcome ports acceptance considered.store world

covers : Covers considered.store considered
unfolding get
covers = record {
  distinct = (refl, tt);
  memberships = λ k m h. subst (λ x. Among x considered.memberships_read) (ground arith) head;
  invitations = λ k i h. subst (λ x. Among x considered.invitations_read) (ground arith) head;
}

command-Moves_example : Moves bus considered (
    store_after ports considered.store considered covers world refl
      (accept_invitation_by acceptance))
command-Moves_example =
    command-Moves ports considered.store considered covers world refl
      (accept_invitation_by acceptance)

abbrev revocation : RevokeMembershipCommand
revocation = record {
  session_token = codes "f";
  organization_id = codes "o";
  membership_id = codes "m";
  work = record work { operation = "organization.membership.revoke" };
}

one_membership : Distinct considered.store.memberships
unfolding get
one_membership = (refl, tt)

owner_command-Guarded_example :
    Guarded ports considered.store world
      (codes "f")
      (codes "o")
      (run_owner_command ports considered.store world (revokes_member revocation))
owner_command-Guarded_example =
    owner_command-Guarded ports considered.store world (revokes_member revocation) one_membership

find_access-HasAccess_example :
    (find_access session (codes "f") (codes "o") founded.store
      ≡ ok (some (access (codes "o") founder Membership.owner)))
    ↔ ((o : Organization) × (m : Membership) × HasAccess founded.store (codes "o") founder o m
        × (access (codes "o") founder Membership.owner ≡ access (codes "o") founder m.role))
find_access-HasAccess_example =
    find_access-HasAccess founded founded-IsSafe.sound (codes "o") founder session (codes "f")
      (access (codes "o") founder Membership.owner) refl

abbrev accepting : InvitationAcceptanceCommit
accepting = record {
  invitation = record pending_invitation {
    status = Invitation.accepted;
    updated_at = 4000;
    accepted_at = some 4000;
  };
  membership = record stored_owner {
    id = codes "n";
    identity_id = guest;
    role = Membership.admin;
    version = 0;
  };
  events = event ∷ event ∷ [];
  work = work;
}

acceptance_all_or_nothing_example :
    let done =
      is_ok (check_acceptance accepting considered.store)
      && is_ok (publish_all bus accepting.events tt).0 in
    let after = commit_acceptance bus accepting considered.store tt in
    (is_ok after.0 ≡ done)
    × (after.1 ≡ (
        if done
        then with_acceptance accepting.invitation accepting.membership considered.store
        else considered.store))
acceptance_all_or_nothing_example = acceptance_all_or_nothing bus considered.store tt accepting

pending-IsValid : InvitationIsValid pending_invitation
pending-IsValid = record {
  monotonic = omega arith;
  expires_later = omega arith;
  shape = (refl, refl);
}

restore-invitation_row_example :
    Invitation.restore (invitation_row pending_invitation) ≡ ok pending_invitation
restore-invitation_row_example =
    restore-invitation_row pending_invitation pending-IsValid (omega arith) (omega arith)
