-- ===== src/Organization/History/Sound.antt =====
-- Single writes to the store of src/modules/organization/infra/in-memory, and what they keep.
use n2f_nest.Prelude.{◌≡◌, sym, subst, ◌∙◌, inl, false, none, some, arith, []}
use n2f_nest.Prelude.Maps.{get, set, find-values-none}
use n2f_nest.Shared.Text.{text_eq, text_beq_iff}
use n2f_nest.Shared.Ids.{Identifier}
use n2f_nest.Shared.Tables.{
  Every, Supersedes, set-Every, set-Apart, set-keeps, get-set_other, write-IsTable,
}
use n2f_nest.Shared.Searches.{any-select-none}
use n2f_nest.Organization.Organization
use n2f_nest.Organization.Organization.{Organization}
use n2f_nest.Organization.Membership
use n2f_nest.Organization.Membership.{Membership}
use n2f_nest.Organization.Invitation
use n2f_nest.Organization.Invitation.{Invitation, is_pending}
use n2f_nest.Organization.Store.{
  OrganizationStore, organization_by_slug, has_slug, is_in, is_of, memberships_for_any_status,
  invites_to, invitation_pending, invitations_for_identity,
}
use n2f_nest.Organization.Writers.{with_membership, with_invitation, is_duplicate, has_pending}
use n2f_nest.Organization.History.{
  is_owner, System, organization_key, organization_version, membership_key, membership_version,
  invitation_key, invitation_version, SameSlug, SamePlace, BothPending, Exists, Owner, IsSound,
}

-- A new slug clashes with none.
pub free_slug :
    (o : Organization) (s : OrganizationStore)
    → organization_by_slug o.slug s ≡ none
    → Every (λ k b. SameSlug o b → o.id ≡ k) s.organizations
unfolding organization_by_slug
free_slug o s h k b g e = absurd (
    ground
      (arith, find-values-none (has_slug o.slug) k b s.organizations, text_beq_iff b.slug o.slug))

-- A membership that is no duplicate clashes with none.
pub free_place :
    (m : Membership) (s : OrganizationStore)
    → is_duplicate m s ≡ false
    → Every (λ k b. SamePlace m b → m.id ≡ k) s.memberships
unfolding is_duplicate memberships_for_any_status
free_place m s h k b g e = absurd (
    ground (
      arith,
      any-select-none (is_in m.organization_id) (is_of m.identity_id) k b s.memberships,
      text_beq_iff b.organization_id m.organization_id,
      text_beq_iff b.identity_id m.identity_id,
    ))

-- An invitation beside which none is pending clashes with none.
pub free_invitation :
    (i : Invitation) (s : OrganizationStore)
    → has_pending i s ≡ false
    → Every (λ k b. BothPending i b → i.id ≡ k) s.invitations
unfolding has_pending invitations_for_identity
free_invitation i s h k b g e = absurd (
    ground (
      arith,
      any-select-none invitation_pending (invites_to i.organization_id i.identity_id) k b
          s.invitations,
      text_beq_iff b.organization_id i.organization_id,
      text_beq_iff b.identity_id i.identity_id,
    ))

SameSlug-sym : (a b : Organization) → SameSlug a b → SameSlug b a
SameSlug-sym a b e = sym e

SamePlace-sym : (a b : Membership) → SamePlace a b → SamePlace b a
SamePlace-sym a b e = record {
  organization_id = sym e.organization_id;
  identity_id = sym e.identity_id;
}

BothPending-sym : (a b : Invitation) → BothPending a b → BothPending b a
BothPending-sym a b e = record {
  organization_id = sym e.organization_id;
  identity_id = sym e.identity_id;
  left_pending = e.right_pending;
  right_pending = e.left_pending;
}

-- A store with one more organization.
abbrev pub with_one_organization : Organization → OrganizationStore → OrganizationStore
with_one_organization o s = record s {
  organizations = set o.id (Organization.saved o) s.organizations;
}

Exists-organization :
    (o : Organization) (s : OrganizationStore) (id : Identifier)
    → Exists id s
    → Exists id (with_one_organization o s)
Exists-organization o s id (p, h) = set-keeps o.id id (Organization.saved o) p s.organizations h

abbrev pub moved : System → OrganizationStore → System
moved s store = record s { store = store }

pub organization-IsSound :
    (s : System) (o : Organization)
    → IsSound s
    → get o.id s.store.organizations ≡ none
    → Every (λ k b. SameSlug o b → o.id ≡ k) s.store.organizations
    → IsSound (moved s (with_one_organization o s.store))
unfolding Organization.saved
organization-IsSound s o p new free = record {
  organizations =
      write-IsTable organization_key organization_version (Organization.saved o)
        s.store.organizations [] p.organizations (inl new) (omega arith);
  memberships = p.memberships;
  invitations = p.invitations;
  slugs =
      set-Apart SameSlug o.id (Organization.saved o) s.store.organizations SameSlug-sym p.slugs
        free;
  alone = p.alone;
  one_pending = p.one_pending;
  placed = λ k m h. Exists-organization o s.store m.organization_id (p.placed k m h);
  invited = λ k i h. Exists-organization o s.store i.organization_id (p.invited k i h);
  placed_read = λ m a. Exists-organization o s.store m.organization_id (p.placed_read m a);
  invited_read = λ i a. Exists-organization o s.store i.organization_id (p.invited_read i a);
}

pub membership-IsSound :
    (s : System) (m : Membership)
    → IsSound s
    → Supersedes membership_key membership_version (Membership.saved m) s.store.memberships
    → Every (λ k b. SamePlace m b → m.id ≡ k) s.store.memberships
    → Exists m.organization_id s.store
    → IsSound (moved s (with_membership m s.store))
unfolding Membership.saved
membership-IsSound s m p over free there = record {
  organizations = p.organizations;
  memberships =
      write-IsTable membership_key membership_version (Membership.saved m) s.store.memberships
        s.memberships_read p.memberships over (omega arith);
  invitations = p.invitations;
  slugs = p.slugs;
  alone =
      set-Apart SamePlace m.id (Membership.saved m) s.store.memberships SamePlace-sym p.alone
        λ k b h e.
          free k b h (record { organization_id = e.organization_id; identity_id = e.identity_id });
  one_pending = p.one_pending;
  placed =
      set-Every (λ k b. Exists b.organization_id s.store) m.id (Membership.saved m)
        s.store.memberships p.placed there;
  invited = p.invited;
  placed_read = p.placed_read;
  invited_read = p.invited_read;
}

pub invitation-IsSound :
    (s : System) (i : Invitation)
    → IsSound s
    → Supersedes invitation_key invitation_version (Invitation.saved i) s.store.invitations
    → Every (λ k b. BothPending i b → i.id ≡ k) s.store.invitations
    → Exists i.organization_id s.store
    → IsSound (moved s (with_invitation i s.store))
unfolding Invitation.saved
invitation-IsSound s i p over free there = record {
  organizations = p.organizations;
  memberships = p.memberships;
  invitations =
      write-IsTable invitation_key invitation_version (Invitation.saved i) s.store.invitations
        s.invitations_read p.invitations over (omega arith);
  slugs = p.slugs;
  alone = p.alone;
  one_pending =
      set-Apart BothPending i.id (Invitation.saved i) s.store.invitations BothPending-sym
        p.one_pending
        λ k b h e. free k b h (record {
          organization_id = e.organization_id;
          identity_id = e.identity_id;
          left_pending = e.left_pending;
          right_pending = e.right_pending;
        });
  placed = p.placed;
  invited =
      set-Every (λ k b. Exists b.organization_id s.store) i.id (Invitation.saved i)
        s.store.invitations p.invited there;
  placed_read = p.placed_read;
  invited_read = p.invited_read;
}

-- A write over no owner's membership leaves each organization its owner.
pub membership-Owner :
    (organization : Identifier) (m : Membership) (s : OrganizationStore)
    → ((p : Membership) → get m.id s.memberships ≡ some p → is_owner p.role ≡ false)
    → Owner organization s
    → Owner organization (with_membership m s)
membership-Owner organization m s other o = record {
  key = o.key;
  held = o.held;
  stored =
      get-set_other m.id o.key (Membership.saved m) s.memberships (λ e.
        let owner =
          other o.held (subst (λ x. get x s.memberships ≡ some o.held) (sym e) o.stored) in
        absurd (cc (owner, o.owns.is_an_owner)))
      ∙ o.stored;
  owns = o.owns;
}
