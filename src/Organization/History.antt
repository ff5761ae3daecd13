-- ===== src/Organization/History.antt =====
-- Any interleaving of the commands of src/modules/organization/app/commands on one store: a command
-- reads memberships and invitations, and later commits what it made of them, while others commit in
-- between.
pub mod Sound
pub mod Changes
pub mod Safety
pub mod Untouched
pub mod Owners
pub mod Closed
use n2f_nest.Prelude.{◌≡◌, Bool, true, false, Option, none, some, List, [], ◌∷◌}
use n2f_nest.Prelude.Maps.{get}
use n2f_nest.Shared.Errors.{ok}
use n2f_nest.Shared.Dates.{Date}
use n2f_nest.Shared.Text.{Text, codes, text_eq}
use n2f_nest.Shared.Values.{Value, string}
use n2f_nest.Shared.Ids.{Identifier}
use n2f_nest.Shared.Numbers.{Version}
use n2f_nest.Shared.Work.{WorkContext}
use n2f_nest.Shared.Events.{Envelope}
use n2f_nest.Shared.Effects.{Action}
use n2f_nest.Shared.Tables.{Table, Among, Every, Apart, IsTable}
use n2f_nest.Organization.Organization
use n2f_nest.Organization.Organization.{Organization}
use n2f_nest.Organization.Membership
use n2f_nest.Organization.Membership.{Membership, MembershipRole, owner, admin, member}
use n2f_nest.Organization.Invitation
use n2f_nest.Organization.Invitation.{Invitation, InvitationRole, is_pending}
use n2f_nest.Organization.Terms.{MembershipStep, membership_step, InvitationStep, invitation_step}
use n2f_nest.Organization.Store.{OrganizationStore}
use n2f_nest.Organization.Writers.{
  commit_organization, commit_membership, commit_invitation, commit_acceptance,
}

abbrev pub is_owner : MembershipRole → Bool
is_owner owner = true
is_owner _ = false

abbrev pub role_text : InvitationRole → Text
role_text Invitation.admin = codes "admin"
role_text Invitation.member = codes "member"

-- The store, and what commands in flight have read.
pub record System : Type 0 where
  pub store : OrganizationStore
  pub memberships_read : List Membership
  pub invitations_read : List Invitation

-- The actor's membership that a command asks for: an active owner of the organization.
pub record Owns (a : Membership) (organization : Identifier) : Type 0 where
  pub organization_id : a.organization_id ≡ organization
  pub is_an_owner : is_owner a.role ≡ true
  pub is_active : a.status ≡ Membership.active

module _ {B : Type 0} (publish : Envelope → Action B (Unit {0})) where
  pub data Step : System → System → Type 0 where
    reads_membership :
        (s : System) (id : Identifier) (m : Membership)
        → get id s.store.memberships ≡ some m
        → Step s (record s { memberships_read = m ∷ s.memberships_read })
    reads_invitation :
        (s : System) (id : Identifier) (i : Invitation)
        → get id s.store.invitations ≡ some i
        → Step s (record s { invitations_read = i ∷ s.invitations_read })
    -- CreateOrganization
    creates :
        (s : System) (input : Organization.CreateOrganizationInput) (id identity : Identifier)
        (o : Organization) (m : Membership) (events : List Envelope) (work : WorkContext) (bus : B)
        → Organization.create input ≡ ok o
        → Membership.add (record {
          id = id;
          organization_id = o.id;
          identity_id = identity;
          role = string (codes "owner");
          created_at = input.created_at;
        })
          ≡ ok m
        → Step s (record s {
          store =
              (commit_organization publish
                (record { organization = o; owner_membership = m; events = events; work = work })
                s.store
                bus).1;
        })
    -- AddMembership, by an owner
    adds :
        (s : System) (input : Membership.AddMembershipInput) (actor m : Membership)
        (event : Envelope) (work : WorkContext) (bus : B)
        → Among actor s.memberships_read
        → Owns actor input.organization_id
        → Membership.add input ≡ ok m
        → Step s (record s {
          store =
              (commit_membership publish
                (record { membership = m; event = event; work = work })
                s.store
                bus).1;
        })
    -- ChangeMembershipRole and RevokeMembership, of a membership that is no owner's
    changes :
        (s : System) (j k : Membership) (a : MembershipStep) (at : Date) (event : Envelope)
        (work : WorkContext) (bus : B)
        → Among j s.memberships_read
        → is_owner j.role ≡ false
        → membership_step j a at ≡ ok k
        → Step s (record s {
          store =
              (commit_membership publish
                (record { membership = k; event = event; work = work })
                s.store
                bus).1;
        })
    -- InviteIdentity, by an owner
    invites :
        (s : System) (input : Invitation.IssueInvitationInput) (actor : Membership) (i : Invitation)
        (event : Envelope) (work : WorkContext) (bus : B)
        → Among actor s.memberships_read
        → Owns actor input.organization_id
        → Invitation.issue input ≡ ok i
        → Step s (record s {
          store =
              (commit_invitation publish
                (record { invitation = i; event = event; work = work })
                s.store
                bus).1;
        })
    -- RevokeInvitation
    revokes :
        (s : System) (i j : Invitation) (at : Date) (event : Envelope) (work : WorkContext)
        (bus : B)
        → Among i s.invitations_read
        → invitation_step i InvitationStep.revokes at ≡ ok j
        → Step s (record s {
          store =
              (commit_invitation publish
                (record { invitation = j; event = event; work = work })
                s.store
                bus).1;
        })
    -- AcceptInvitation
    accepts :
        (s : System) (i j : Invitation) (id : Identifier) (m : Membership) (at : Date)
        (events : List Envelope) (work : WorkContext) (bus : B)
        → Among i s.invitations_read
        → invitation_step i InvitationStep.accepts at ≡ ok j
        → Membership.add (record {
          id = id;
          organization_id = j.organization_id;
          identity_id = j.identity_id;
          role = string (role_text j.role);
          created_at = at;
        })
          ≡ ok m
        → Step s (record s {
          store =
              (commit_acceptance publish
                (record { invitation = j; membership = m; events = events; work = work })
                s.store
                bus).1;
        })

  -- Any number of steps.
  pub data Reach (s : System) : System → Type 0 where
    unmoved : Reach s s
    next : {t u : System} → Reach s t → Step t u → Reach s u

abbrev pub organization_key : Organization → Identifier
organization_key o = o.id

abbrev pub organization_version : Organization → Version
organization_version o = o.version

abbrev pub membership_key : Membership → Identifier
membership_key m = m.id

abbrev pub membership_version : Membership → Version
membership_version m = m.version

abbrev pub invitation_key : Invitation → Identifier
invitation_key i = i.id

abbrev pub invitation_version : Invitation → Version
invitation_version i = i.version

abbrev pub SameSlug : Organization → Organization → Type 0
SameSlug a b = a.slug ≡ b.slug

-- Both are memberships of one identity in one organization.
pub record SamePlace (a b : Membership) : Type 0 where
  pub organization_id : a.organization_id ≡ b.organization_id
  pub identity_id : a.identity_id ≡ b.identity_id

-- Both are pending, for one identity and one organization.
pub record BothPending (a b : Invitation) : Type 0 where
  pub organization_id : a.organization_id ≡ b.organization_id
  pub identity_id : a.identity_id ≡ b.identity_id
  pub left_pending : is_pending a.status ≡ true
  pub right_pending : is_pending b.status ≡ true

-- The organization is stored.
abbrev pub Exists : Identifier → OrganizationStore → Type 0
Exists organization s = (o : Organization) × (get organization s.organizations ≡ some o)

-- An active owner's membership of the organization is stored.
pub record Owner (organization : Identifier) (s : OrganizationStore) : Type 0 where
  pub key : Identifier
  pub held : Membership
  pub stored : get key s.memberships ≡ some held
  pub owns : Owns held organization

-- The invariant of the system, but for the owners: the tables are tables of versioned records; slugs are unique; an identity
-- has one membership in an organization, and one pending invitation to it; and what memberships and invitations name
-- as their organization is stored.
pub record IsSound (s : System) : Type 0 where
  pub organizations : IsTable organization_key organization_version s.store.organizations []
  pub memberships : IsTable membership_key membership_version s.store.memberships s.memberships_read
  pub invitations : IsTable invitation_key invitation_version s.store.invitations s.invitations_read
  pub slugs : Apart SameSlug s.store.organizations
  pub alone : Apart SamePlace s.store.memberships
  pub one_pending : Apart BothPending s.store.invitations
  pub placed : Every (λ k m. Exists m.organization_id s.store) s.store.memberships
  pub invited : Every (λ k i. Exists i.organization_id s.store) s.store.invitations
  pub placed_read : (m : Membership) → Among m s.memberships_read → Exists m.organization_id s.store
  pub invited_read :
      (i : Invitation) → Among i s.invitations_read → Exists i.organization_id s.store

-- Every organization has an active owner.
abbrev pub IsOwned : OrganizationStore → Type 0
IsOwned s = Every (λ k o. Owner k s) s.organizations

pub record IsSafe (s : System) : Type 0 where
  pub sound : IsSound s
  pub owned : IsOwned s.store
