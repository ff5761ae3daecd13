-- ===== src/Organization/Access.antt =====
-- src/modules/organization/app/queries, over the reader of infra/in-memory/reader.ts, and
-- src/integration/organization-access.ts: the access of a session token to an organization.
use n2f_nest.Prelude.{Bool, ◌&&◌, Option, none, some, List, find, if◌then◌else◌}
use n2f_nest.Prelude.Maps.{◌===◌}
use n2f_nest.Shared.Errors.{Result, ok, map_error, ◌>>=◌}
use n2f_nest.Shared.Text.{Text, text_eq}
use n2f_nest.Shared.Ids.{Identifier}
use n2f_nest.Organization.Failures.{dependency_failure}
use n2f_nest.Organization.Organization
use n2f_nest.Organization.Membership
use n2f_nest.Organization.Membership.{MembershipRole}
use n2f_nest.Organization.Store.{OrganizationStore, OrganizationMembershipView, list_for_identity}

-- OrganizationAccessView
pub record OrganizationAccessView : Type 0 where
  pub organization_id : Identifier
  pub identity_id : Identifier
  pub role : MembershipRole

abbrev pub is_view_of : Identifier → OrganizationMembershipView → Bool
is_view_of organization v = v.organization.id === organization

-- The bridge's answer to a view.
unfoldable pub access_of : Option OrganizationMembershipView → Option OrganizationAccessView
access_of none = none
access_of (some v) =
    if Organization.is_active v.organization.status && Membership.is_active v.membership.status
    then some (record {
      organization_id = v.organization.id;
      identity_id = v.membership.identity_id;
      role = v.membership.role;
    })
    else none

-- The reader of the current actor is a port.
module _ (find_current : Text → Result Identifier) where
  -- `ListCurrentOrganizations.execute`
  unfoldable pub list_current_organizations :
      Text → OrganizationStore → Result (List OrganizationMembershipView)
  list_current_organizations session_token s = do
    actor ← map_error (find_current session_token) dependency_failure
    ok (list_for_identity actor s)

  -- `GetOrganizationMembership.execute`
  unfoldable pub get_organization_membership :
      Text → Identifier → OrganizationStore → Result (Option OrganizationMembershipView)
  get_organization_membership session_token organization s = do
    actor ← map_error (find_current session_token) dependency_failure
    ok (find (is_view_of organization) (list_for_identity actor s))

  -- `OrganizationAccessBridge.find`
  unfoldable pub find_access :
      Text → Identifier → OrganizationStore → Result (Option OrganizationAccessView)
  find_access session_token organization s = do
    view ← get_organization_membership session_token organization s
    ok (access_of view)
