-- ===== src/Organization/Writes.antt =====
-- The writers' contracts (src/modules/organization/infra/in-memory).
use n2f_nest.Prelude.{
  ◌≤◌, ◌≡◌, ◌⊎◌, inl, inr, true, false, ◌&&◌, none, some, arith, Option-cases, if◌then◌else◌,
}
use n2f_nest.Prelude.Maps.{get, set, set-set_back, delete-set_new}
use n2f_nest.Shared.Errors.{ok, is_ok}
use n2f_nest.Shared.Text.{text_eq}
use n2f_nest.Shared.Ids.{Identifier}
use n2f_nest.Shared.Tables.{Table}
use n2f_nest.Shared.Events.{Envelope}
use n2f_nest.Shared.Effects.{Action}
use n2f_nest.Shared.Transactions.{publish_all, transact_all_or_nothing, transact_cases}
use n2f_nest.Organization.Organization
use n2f_nest.Organization.Organization.{Organization}
use n2f_nest.Organization.Membership
use n2f_nest.Organization.Membership.{Membership}
use n2f_nest.Organization.Invitation
use n2f_nest.Organization.Invitation.{Invitation, is_pending}
use n2f_nest.Organization.Store.{OrganizationStore, organization_by_slug}
use n2f_nest.Organization.Writers.{
  CreateOrganizationCommit, MembershipCommit, InvitationCommit, InvitationAcceptanceCommit,
  put_back, check_organization, with_organization, without_organization, check_membership,
  check_stored_membership, with_membership, is_duplicate, check_invitation, check_stored_invitation,
  with_invitation, has_pending, check_acceptance, with_acceptance, without_acceptance,
  commit_organization, commit_membership, commit_invitation, commit_acceptance,
}

-- Putting back what a key held undoes a write.
put_back-set :
    {A : Type 0} (id : Identifier) (a : A) (t : Table A) → put_back id (get id t) (set id a t) ≡ t
put_back-set id a t = elim (Option-cases (get id t)) [
  | inl e ↦ rw e (delete-set_new id a t e)
  | inr (previous, e) ↦ rw e (set-set_back id previous a t e)
]

-- An accepted creation has a new ID, a new slug, and a membership with a new ID.
pub check-organization :
    (input : CreateOrganizationCommit) (s : OrganizationStore)
    → check_organization input s ≡ ok tt
    → (get input.organization.id s.organizations ≡ none)
      × (organization_by_slug input.organization.slug s ≡ none)
      × (get input.owner_membership.id s.memberships ≡ none)
unfolding check_organization
check-organization input s h = ground arith

-- An accepted acceptance finds the invitation pending, at the version it carries; its membership has a new ID, and its
-- identity has none in the organization.
pub check-acceptance :
    (input : InvitationAcceptanceCommit) (s : OrganizationStore)
    → check_acceptance input s ≡ ok tt
    → (p : Invitation) × (get input.invitation.id s.invitations ≡ some p)
      × (is_pending p.status ≡ true)
      × (p.version ≡ input.invitation.version)
      × (get input.membership.id s.memberships ≡ none)
      × (is_duplicate input.membership s ≡ false)
unfolding check_acceptance
check-acceptance input s h = elim (Option-cases (get input.invitation.id s.invitations)) [
  | inl e ↦ absurd (ground arith)
  | inr (p, e) ↦ (p, e, ground arith, ground arith, ground arith, ground arith)
]

-- An accepted new membership has a new ID, and its identity has none in the organization.
pub check-membership_new :
    (input : MembershipCommit) (s : OrganizationStore)
    → input.membership.version ≡ 0
    → check_membership input s ≡ ok tt
    → (get input.membership.id s.memberships ≡ none) × (is_duplicate input.membership s ≡ false)
unfolding check_membership check_stored_membership
check-membership_new input s v h = ground arith

-- An accepted change of a membership finds it at the version it carries.
pub check-membership_change :
    (input : MembershipCommit) (s : OrganizationStore)
    → 1 ≤ input.membership.version
    → check_membership input s ≡ ok tt
    → (p : Membership) × (get input.membership.id s.memberships ≡ some p)
      × (p.version ≡ input.membership.version)
unfolding check_membership check_stored_membership
check-membership_change input s v h = elim (Option-cases (get input.membership.id s.memberships)) [
  | inl e ↦ absurd (ground arith)
  | inr (p, e) ↦ (p, e, ground arith)
]

-- An accepted new invitation has a new ID, and no other is pending if it is.
pub check-invitation_new :
    (input : InvitationCommit) (s : OrganizationStore)
    → input.invitation.version ≡ 0
    → is_pending input.invitation.status ≡ true
    → check_invitation input s ≡ ok tt
    → (get input.invitation.id s.invitations ≡ none) × (has_pending input.invitation s ≡ false)
unfolding check_invitation check_stored_invitation
check-invitation_new input s v p h = ground arith

-- An accepted change of an invitation finds it at the version it carries.
pub check-invitation_change :
    (input : InvitationCommit) (s : OrganizationStore)
    → 1 ≤ input.invitation.version
    → check_invitation input s ≡ ok tt
    → (p : Invitation) × (get input.invitation.id s.invitations ≡ some p)
      × (p.version ≡ input.invitation.version)
unfolding check_invitation check_stored_invitation
check-invitation_change input s v h = elim (Option-cases (get input.invitation.id s.invitations)) [
  | inl e ↦ absurd (ground arith)
  | inr (p, e) ↦ (p, e, ground arith)
]

undo-organization :
    (input : CreateOrganizationCommit) (s : OrganizationStore)
    → check_organization input s ≡ ok tt
    → let written = with_organization input.organization input.owner_membership s in
      without_organization input.organization.id input.owner_membership.id written ≡ s
undo-organization input s h =
    let (new, free, alone) = check-organization input s h in
    ground (
      arith,
      delete-set_new input.organization.id (Organization.saved input.organization) s.organizations
          new,
      delete-set_new input.owner_membership.id (Membership.saved input.owner_membership)
          s.memberships alone,
    )

undo-acceptance :
    (input : InvitationAcceptanceCommit) (s : OrganizationStore)
    → check_acceptance input s ≡ ok tt
    → let i = input.invitation in
      let written = with_acceptance i input.membership s in
      without_acceptance i.id (get i.id s.invitations) input.membership.id written ≡ s
undo-acceptance input s h =
    let (p, found, open_, version, new, alone) = check-acceptance input s h in
    ground (
      arith,
      put_back-set input.invitation.id (Invitation.saved input.invitation) s.invitations,
      delete-set_new input.membership.id (Membership.saved input.membership) s.memberships new,
    )

module _ {B : Type 0} (publish : Envelope → Action B (Unit {0})) (s : OrganizationStore)
    (bus : B) where
  -- Creating an organization succeeds exactly when its checks pass and both events are handed on. Then the organization
  -- and its owner's membership are stored; in every other case the store is the one before.
  pub organization_all_or_nothing :
      (input : CreateOrganizationCommit)
      → let done =
          is_ok (check_organization input s) && is_ok (publish_all publish input.events bus).0 in
        let after = commit_organization publish input s bus in
        (is_ok after.0 ≡ done)
        × (after.1
            ≡ (if done then with_organization input.organization input.owner_membership s else s))
  unfolding commit_organization
  organization_all_or_nothing input =
      transact_all_or_nothing s _ _ (check_organization input s) (publish_all publish input.events)
        bus (undo-organization input s)

  -- Accepting an invitation succeeds exactly when its checks pass and both events are handed on. Then the accepted
  -- invitation and the membership are stored; in every other case the store is the one before.
  pub acceptance_all_or_nothing :
      (input : InvitationAcceptanceCommit)
      → let done =
          is_ok (check_acceptance input s) && is_ok (publish_all publish input.events bus).0 in
        let after = commit_acceptance publish input s bus in
        (is_ok after.0 ≡ done)
        × (after.1 ≡ (if done then with_acceptance input.invitation input.membership s else s))
  unfolding commit_acceptance
  acceptance_all_or_nothing input =
      transact_all_or_nothing s _ _ (check_acceptance input s) (publish_all publish input.events)
        bus (undo-acceptance input s)

  pub organization_cases :
      (input : CreateOrganizationCommit)
      → let after = commit_organization publish input s bus in
        ((is_ok after.0 ≡ false) × (after.1 ≡ s))
        ⊎ ((is_ok after.0 ≡ true)
            × (after.1 ≡ with_organization input.organization input.owner_membership s)
            × (check_organization input s ≡ ok tt))
  unfolding commit_organization
  organization_cases input =
      transact_cases s _ _ (check_organization input s) (publish_all publish input.events) bus
        (undo-organization input s)

  pub acceptance_cases :
      (input : InvitationAcceptanceCommit)
      → let after = commit_acceptance publish input s bus in
        ((is_ok after.0 ≡ false) × (after.1 ≡ s))
        ⊎ ((is_ok after.0 ≡ true)
            × (after.1 ≡ with_acceptance input.invitation input.membership s)
            × (check_acceptance input s ≡ ok tt))
  unfolding commit_acceptance
  acceptance_cases input =
      transact_cases s _ _ (check_acceptance input s) (publish_all publish input.events) bus
        (undo-acceptance input s)

  pub membership_cases :
      (input : MembershipCommit)
      → let after = commit_membership publish input s bus in
        ((is_ok after.0 ≡ false) × (after.1 ≡ s))
        ⊎ ((is_ok after.0 ≡ true)
            × (after.1 ≡ with_membership input.membership s)
            × (check_membership input s ≡ ok tt))
  unfolding commit_membership
  membership_cases input =
      transact_cases s _ _ (check_membership input s) (publish input.event) bus λ passed.
        ground (
          arith,
          put_back-set input.membership.id (Membership.saved input.membership) s.memberships,
        )

  pub invitation_cases :
      (input : InvitationCommit)
      → let after = commit_invitation publish input s bus in
        ((is_ok after.0 ≡ false) × (after.1 ≡ s))
        ⊎ ((is_ok after.0 ≡ true)
            × (after.1 ≡ with_invitation input.invitation s)
            × (check_invitation input s ≡ ok tt))
  unfolding commit_invitation
  invitation_cases input =
      transact_cases s _ _ (check_invitation input s) (publish input.event) bus λ passed.
        ground (
          arith,
          put_back-set input.invitation.id (Invitation.saved input.invitation) s.invitations,
        )
