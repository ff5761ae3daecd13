-- ===== src/Organization/Writers.antt =====
-- The writers of src/modules/organization/infra/in-memory: writer.ts, membership-writer.ts,
-- invitation-writer.ts and invitation-acceptance-writer.ts.
use n2f_nest.Prelude.{
  Bool, false, ◌&&◌, ◌||◌, Option, none, some, List, ◌==◌, any, is_some, if◌then◌else◌,
}
use n2f_nest.Prelude.Maps.{get, set, delete, has}
use n2f_nest.Shared.Errors.{Result, err, refuse, require, ◌>>◌}
use n2f_nest.Shared.Numbers.{unsaved}
use n2f_nest.Shared.Text.{text_eq}
use n2f_nest.Shared.Ids.{Identifier}
use n2f_nest.Shared.Tables.{Table}
use n2f_nest.Shared.Work.{WorkContext}
use n2f_nest.Shared.Events.{Envelope, assert_event_work}
use n2f_nest.Shared.Effects.{Action}
use n2f_nest.Shared.Transactions.{assert_events, publish_all, transact}
use n2f_nest.Organization.Organization
use n2f_nest.Organization.Organization.{Organization}
use n2f_nest.Organization.Membership
use n2f_nest.Organization.Membership.{Membership}
use n2f_nest.Organization.Invitation
use n2f_nest.Organization.Invitation.{Invitation, is_pending}
use n2f_nest.Organization.Store.{
  OrganizationStore, organization_by_slug, memberships_for_any_status, is_in,
  invitations_for_identity, invitation_pending, stale_write, organization_exists, slug_taken,
  owner_membership_exists, membership_exists, invitation_exists, pending_invitation_exists,
  acceptance_conflict, accepted_membership_exists, membership_not_found, invitation_not_found,
}

pub record CreateOrganizationCommit : Type 0 where
  pub organization : Organization
  pub owner_membership : Membership
  pub events : List Envelope
  pub work : WorkContext

pub record MembershipCommit : Type 0 where
  pub membership : Membership
  pub event : Envelope
  pub work : WorkContext

pub record InvitationCommit : Type 0 where
  pub invitation : Invitation
  pub event : Envelope
  pub work : WorkContext

pub record InvitationAcceptanceCommit : Type 0 where
  pub invitation : Invitation
  pub membership : Membership
  pub events : List Envelope
  pub work : WorkContext

-- What a write of a record puts back when it is undone.
abbrev pub put_back : {A : Type 0} → Identifier → Option A → Table A → Table A
put_back id none table = delete id table
put_back id (some previous) table = set id previous table

-- The checks of `InMemoryOrganizationWriter.commit`.
unfoldable pub check_organization : CreateOrganizationCommit → OrganizationStore → Result (Unit {0})
check_organization input s =
    assert_events input.events input.work
    >> refuse (has input.organization.id s.organizations) organization_exists
    >> refuse (is_some (organization_by_slug input.organization.slug s)) slug_taken
    >> refuse (has input.owner_membership.id s.memberships) owner_membership_exists

abbrev pub with_organization : Organization → Membership → OrganizationStore → OrganizationStore
with_organization o m s = record s {
  organizations = set o.id (Organization.saved o) s.organizations;
  memberships = set m.id (Membership.saved m) s.memberships;
}

abbrev pub without_organization : Identifier → Identifier → OrganizationStore → OrganizationStore
without_organization organization membership s = record s {
  organizations = delete organization s.organizations;
  memberships = delete membership s.memberships;
}

-- The memberships of the same identity and organization, whatever their status.
unfoldable pub is_duplicate : Membership → OrganizationStore → Bool
is_duplicate m s = any (is_in m.organization_id) (memberships_for_any_status m.identity_id s)

-- The checks of a membership, once the event is that of the work.
unfoldable pub check_stored_membership :
    Membership → Option Membership → OrganizationStore → Result (Unit {0})
check_stored_membership m existing s =
    if m.version == unsaved
    then refuse (is_some existing || is_duplicate m s) membership_exists
    else elim existing [
      | none ↦ err membership_not_found
      | some e ↦ require (e.version == m.version) stale_write
    ]

unfoldable pub check_membership : MembershipCommit → OrganizationStore → Result (Unit {0})
check_membership input s =
    assert_event_work input.event input.work
    >> check_stored_membership input.membership (get input.membership.id s.memberships) s

-- A pending invitation of the same identity to the same organization.
unfoldable pub has_pending : Invitation → OrganizationStore → Bool
has_pending i s =
    any invitation_pending (invitations_for_identity i.organization_id i.identity_id s)

unfoldable pub check_stored_invitation :
    Invitation → Option Invitation → OrganizationStore → Result (Unit {0})
check_stored_invitation i existing s =
    if i.version == unsaved
    then (refuse (is_some existing) invitation_exists
        >> refuse (has_pending i s && is_pending i.status) pending_invitation_exists)
    else elim existing [
      | none ↦ err invitation_not_found
      | some e ↦ require (e.version == i.version) stale_write
    ]

unfoldable pub check_invitation : InvitationCommit → OrganizationStore → Result (Unit {0})
check_invitation input s =
    assert_event_work input.event input.work
    >> check_stored_invitation input.invitation (get input.invitation.id s.invitations) s

-- `!previous || previous.status !== 'pending' || previous.version !== invitation.version`
abbrev pub is_acceptable : Option Invitation → Invitation → Bool
is_acceptable none i = false
is_acceptable (some previous) i = is_pending previous.status && previous.version == i.version

unfoldable pub check_acceptance : InvitationAcceptanceCommit → OrganizationStore → Result (Unit {0})
check_acceptance input s =
    assert_events input.events input.work
    >> require (is_acceptable (get input.invitation.id s.invitations) input.invitation)
        acceptance_conflict
    >> refuse (has input.membership.id s.memberships || is_duplicate input.membership s)
        accepted_membership_exists

abbrev pub with_acceptance : Invitation → Membership → OrganizationStore → OrganizationStore
with_acceptance i m s = record s {
  invitations = set i.id (Invitation.saved i) s.invitations;
  memberships = set m.id (Membership.saved m) s.memberships;
}

-- The previous invitation is put back, and the membership is removed.
abbrev pub without_acceptance :
    Identifier → Option Invitation → Identifier → OrganizationStore → OrganizationStore
without_acceptance invitation previous membership s = record s {
  invitations = put_back invitation previous s.invitations;
  memberships = delete membership s.memberships;
}

abbrev pub with_membership : Membership → OrganizationStore → OrganizationStore
with_membership m s = record s { memberships = set m.id (Membership.saved m) s.memberships }

abbrev pub undo_membership : Identifier → Option Membership → OrganizationStore → OrganizationStore
undo_membership id previous s = record s { memberships = put_back id previous s.memberships }

abbrev pub with_invitation : Invitation → OrganizationStore → OrganizationStore
with_invitation i s = record s { invitations = set i.id (Invitation.saved i) s.invitations }

abbrev pub undo_invitation : Identifier → Option Invitation → OrganizationStore → OrganizationStore
undo_invitation id previous s = record s { invitations = put_back id previous s.invitations }

module _ {B : Type 0} (publish : Envelope → Action B (Unit {0})) where
  -- `InMemoryOrganizationWriter.commit`
  unfoldable pub commit_organization :
      CreateOrganizationCommit → OrganizationStore → B → Result (Unit {0}) × OrganizationStore × B
  commit_organization input s =
      let written = with_organization input.organization input.owner_membership s in
      transact s written
        (without_organization input.organization.id input.owner_membership.id written)
        (check_organization input s) (publish_all publish input.events)

  -- `InMemoryMembershipWriter.commit`
  unfoldable pub commit_membership :
      MembershipCommit → OrganizationStore → B → Result (Unit {0}) × OrganizationStore × B
  commit_membership input s =
      let m = input.membership in
      let written = with_membership m s in
      transact s written (undo_membership m.id (get m.id s.memberships) written)
        (check_membership input s) (publish input.event)

  -- `InMemoryInvitationWriter.commit`
  unfoldable pub commit_invitation :
      InvitationCommit → OrganizationStore → B → Result (Unit {0}) × OrganizationStore × B
  commit_invitation input s =
      let i = input.invitation in
      let written = with_invitation i s in
      transact s written (undo_invitation i.id (get i.id s.invitations) written)
        (check_invitation input s) (publish input.event)

  -- `InMemoryInvitationAcceptanceWriter.commit`
  unfoldable pub commit_acceptance :
      InvitationAcceptanceCommit → OrganizationStore → B → Result (Unit {0}) × OrganizationStore × B
  commit_acceptance input s =
      let i = input.invitation in
      let written = with_acceptance i input.membership s in
      transact s written
        (without_acceptance i.id (get i.id s.invitations) input.membership.id written)
        (check_acceptance input s) (publish_all publish input.events)
