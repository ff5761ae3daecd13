-- ===== src/Organization/Store.antt =====
-- src/modules/organization/infra/in-memory: the store and its readers, and infra/failures.ts.
use n2f_nest.Prelude.{
  Bool, ◌&&◌, Option, none, some, List, [], ◌∷◌, find, select, if◌then◌else◌, String,
}
use n2f_nest.Prelude.Maps.{get, values, ◌===◌}
use n2f_nest.Shared.Errors.{Kind, failure, Failure}
use n2f_nest.Shared.Text.{Text, text_eq}
use n2f_nest.Shared.Ids.{Identifier}
use n2f_nest.Shared.Tables.{Table}
use n2f_nest.Organization.Organization
use n2f_nest.Organization.Organization.{Organization}
use n2f_nest.Organization.Membership
use n2f_nest.Organization.Membership.{Membership}
use n2f_nest.Organization.Invitation.{Invitation, is_pending}

-- InMemoryOrganizationStore
pub record OrganizationStore : Type 0 where
  pub organizations : Table Organization
  pub memberships : Table Membership
  pub invitations : Table Invitation

abbrev pub has_slug : Text → Organization → Bool
has_slug slug o = o.slug === slug

unfoldable pub organization_by_slug : Text → OrganizationStore → Option Organization
organization_by_slug slug s = find (has_slug slug) (values s.organizations)

abbrev pub is_active_of : Identifier → Membership → Bool
is_active_of identity m = (m.identity_id === identity) && Membership.is_active m.status

abbrev pub is_of : Identifier → Membership → Bool
is_of identity m = m.identity_id === identity

unfoldable pub memberships_for_identity : Identifier → OrganizationStore → List Membership
memberships_for_identity identity s = select (is_active_of identity) (values s.memberships)

unfoldable pub memberships_for_any_status : Identifier → OrganizationStore → List Membership
memberships_for_any_status identity s = select (is_of identity) (values s.memberships)

abbrev pub invites_to : Identifier → Identifier → Invitation → Bool
invites_to organization identity i =
    (i.organization_id === organization) && (i.identity_id === identity)

unfoldable pub invitations_for_identity :
    Identifier → Identifier → OrganizationStore → List Invitation
invitations_for_identity organization identity s =
    select (invites_to organization identity) (values s.invitations)

abbrev pub is_in : Identifier → Membership → Bool
is_in organization m = m.organization_id === organization

abbrev pub invitation_pending : Invitation → Bool
invitation_pending i = is_pending i.status

-- `InMemoryMembershipReader.findActiveForIdentity`
unfoldable pub find_active_for_identity :
    Identifier → Identifier → OrganizationStore → Option Membership
find_active_for_identity organization identity s =
    find (is_in organization) (memberships_for_identity identity s)

-- `InMemoryMembershipReader.findForIdentity`
unfoldable pub find_for_identity : Identifier → Identifier → OrganizationStore → Option Membership
find_for_identity organization identity s =
    find (is_in organization) (memberships_for_any_status identity s)

-- `InMemoryInvitationReader.findPendingForIdentity`
unfoldable pub find_pending_for_identity :
    Identifier → Identifier → OrganizationStore → Option Invitation
find_pending_for_identity organization identity s =
    find invitation_pending (invitations_for_identity organization identity s)

pub record OrganizationMembershipView : Type 0 where
  pub organization : Organization
  pub membership : Membership

-- The views of the memberships whose organization is there and not archived.
unfoldable pub views_of : List Membership → OrganizationStore → List OrganizationMembershipView
views_of [] s = []
views_of (m ∷ ms) s =
    let rest = views_of ms s in
    elim (get m.organization_id s.organizations) [
      | none ↦ rest
      | some o ↦
          if Organization.is_archived o.status
          then rest
          else record { organization = o; membership = m } ∷ rest
    ]

-- `InMemoryOrganizationReader.listForIdentity`
unfoldable pub list_for_identity : Identifier → OrganizationStore → List OrganizationMembershipView
list_for_identity identity s = views_of (memberships_for_identity identity s) s

-- src/modules/organization/infra/failures.ts
abbrev conflict : String → Failure
conflict t = failure Kind.conflict t

abbrev pub stale_write : Failure
stale_write = conflict "organization.stale_write"

abbrev pub organization_exists : Failure
organization_exists = conflict "organization.already_exists"

abbrev pub slug_taken : Failure
slug_taken = conflict "organization.slug_taken"

abbrev pub owner_membership_exists : Failure
owner_membership_exists = conflict "organization.membership_exists"

abbrev pub membership_exists : Failure
membership_exists = conflict "organization.membership.already_exists"

abbrev pub invitation_exists : Failure
invitation_exists = conflict "organization.invitation_exists"

abbrev pub pending_invitation_exists : Failure
pending_invitation_exists = conflict "organization.invitation.already_exists"

abbrev pub acceptance_conflict : Failure
acceptance_conflict = conflict "organization.invitation.acceptance_conflict"

abbrev pub accepted_membership_exists : Failure
accepted_membership_exists = conflict "organization.invitation.membership_exists"

abbrev pub membership_not_found : Failure
membership_not_found = failure Kind.not_found "organization.membership.not_found"

abbrev pub invitation_not_found : Failure
invitation_not_found = failure Kind.not_found "organization.invitation.not_found"
