-- ===== src/Organization/Commands/Create.antt =====
-- src/modules/organization/app/commands/create-organization.ts
use n2f_nest.Prelude.{[], ◌∷◌}
use n2f_nest.Shared.Errors.{map_error}
use n2f_nest.Shared.Text.{Text, codes, text_eq}
use n2f_nest.Shared.Values.{Value, string, Fields}
use n2f_nest.Shared.Ids.{Identifier}
use n2f_nest.Shared.Work.{WorkContext}
use n2f_nest.Shared.Effects.{Action, pure, lift, on_error, ◌>>=◌, ◌>>◌}
use n2f_nest.Organization.Failures.{dependency_failure}
use n2f_nest.Organization.Organization
use n2f_nest.Organization.Organization.{Organization}
use n2f_nest.Organization.Membership
use n2f_nest.Organization.Membership.{Membership, MembershipRole}
use n2f_nest.Organization.Writers.{commit_organization}
use n2f_nest.Organization.Commands.{
  Ports, World, role_name, payload_of, named_operation, next_id, new_event, through,
}

pub record CreateOrganizationCommand : Type 0 where
  pub session_token : Text
  pub name : Value
  pub slug : Value
  pub work : WorkContext

pub record CreateOrganizationResult : Type 0 where
  pub organization_id : Identifier
  pub owner_membership_id : Identifier

unfoldable pub organization_payload : Organization → Identifier → Fields
organization_payload o identity = payload_of (
    ("organization_id", string o.id)
    ∷ ("identity_id", string identity)
    ∷ ("name", string o.name)
    ∷ ("slug", string o.slug)
    ∷ [])

unfoldable pub membership_payload : Membership → Fields
membership_payload m = payload_of (
    ("organization_id", string m.organization_id)
    ∷ ("identity_id", string m.identity_id)
    ∷ ("membership_id", string m.id)
    ∷ ("role", string (role_name m.role))
    ∷ [])

module _ {B G : Type 0} (ports : Ports B G) where
  -- `CreateOrganization.execute`
  unfoldable pub create_organization :
      CreateOrganizationCommand → Action (World B G) CreateOrganizationResult
  create_organization command = do
    lift (named_operation command.work "organization.create" "organization.invalid_operation")
    identity ← lift (map_error (ports.find_current command.session_token) dependency_failure)
    id ← next_id ports "organization.id_generation"
    organization ← lift (
        Organization.create
          (record { id = id; name = command.name; slug = command.slug; created_at = ports.now }))
    membership_id ← next_id ports "organization.id_generation"
    membership ← lift (
        Membership.add (record {
          id = membership_id;
          organization_id = organization.id;
          identity_id = identity;
          role = string (codes "owner");
          created_at = ports.now;
        }))
    organization_event_id ← next_id ports "organization.id_generation"
    organization_event ← lift (
        new_event ports organization_event_id "organization.created.v1" command.work
          (organization_payload organization identity) "organization" organization.id
          organization.id)
    membership_event_id ← next_id ports "organization.id_generation"
    membership_event ← lift (
        new_event ports membership_event_id "organization.membership.added.v1" command.work
          (membership_payload membership) "membership" membership.id organization.id)
    on_error dependency_failure (
        through ports (
          commit_organization ports.publish (record {
            organization = organization;
            owner_membership = membership;
            events = organization_event ∷ membership_event ∷ [];
            work = command.work;
          })))
    pure (record { organization_id = organization.id; owner_membership_id = membership.id })
