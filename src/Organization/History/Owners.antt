-- ===== src/Organization/History/Owners.antt =====
-- No interleaving of commands changes the memberships of owners in the store of
-- src/modules/organization/infra/in-memory.
use n2f_nest.Prelude.{◌≡◌, ◌∙◌, Bool, true, some}
use n2f_nest.Prelude.Maps.{get}
use n2f_nest.Shared.Errors.{ok, ensured}
use n2f_nest.Shared.Text.{text_eq}
use n2f_nest.Shared.Ids.{Identifier}
use n2f_nest.Shared.Events.{Envelope}
use n2f_nest.Shared.Effects.{Action}
use n2f_nest.Shared.Tables.{get-set_other}
use n2f_nest.Organization.Membership
use n2f_nest.Organization.Membership.{Membership, owner, role_of}
use n2f_nest.Organization.Terms.{membership_step, MembershipKeeps, membership_step-Keeps}
use n2f_nest.Organization.Writers.{
  CreateOrganizationCommit, MembershipCommit, InvitationCommit, InvitationAcceptanceCommit,
  with_organization, with_membership, with_invitation, with_acceptance, check_organization,
  check_membership, check_invitation, check_acceptance, commit_organization, commit_membership,
  commit_invitation, commit_acceptance,
}
use n2f_nest.Organization.Writes.{
  check-organization, check-acceptance, check-membership_new, organization_cases, membership_cases,
  invitation_cases, acceptance_cases,
}
use n2f_nest.Organization.History.{
  is_owner, System, Step, reads_membership, reads_invitation, creates, adds, changes, invites,
  revokes, accepts, Reach, unmoved, next, IsSafe,
}
use n2f_nest.Organization.History.Changes.{Added, add-Added, membership_replaced}
use n2f_nest.Organization.History.Safety.{organizations-IsSafe}
use n2f_nest.Organization.History.Untouched.{apart_new, apart_old, by_cases}

abbrev has_owner : Membership → Bool
has_owner m = is_owner m.role

module _ {B : Type 0} (publish : Envelope → Action B (Unit {0})) where
  -- Each step keeps an owner's membership.
  step_owner_kept :
      {s t : System} (id : Identifier) (m : Membership)
      → Step publish s t
      → IsSafe s
      → is_owner m.role ≡ true
      → get id s.store.memberships ≡ some m
      → get id t.store.memberships ≡ some m
  step_owner_kept id m (reads_membership s i n g) p o h = h
  step_owner_kept id m (reads_invitation s i n g) p o h = h
  step_owner_kept id m (creates s input x identity org n events work bus made added) p o h =
      let commit : CreateOrganizationCommit = record {
        organization = org;
        owner_membership = n;
        events = events;
        work = work;
      } in
      by_cases (λ t. get id t.memberships ≡ some m) s.store
        (commit_organization publish commit s.store bus) (with_organization org n s.store)
        (check_organization commit s.store ≡ ok tt) (organization_cases publish s.store bus commit)
        h
        λ passed.
          get-set_other n.id id (Membership.saved n) s.store.memberships
            (apart_new n.id id m s.store.memberships h (check-organization commit s.store passed).2)
          ∙ h
  step_owner_kept id m (adds s input actor n event work bus a owns added) p o h =
      let commit : MembershipCommit = record { membership = n; event = event; work = work } in
      by_cases (λ t. get id t.memberships ≡ some m) s.store
        (commit_membership publish commit s.store bus) (with_membership n s.store)
        (check_membership commit s.store ≡ ok tt) (membership_cases publish s.store bus commit) h
        λ passed.
          let is = ensured (Added input) (Membership.add input) (add-Added input) added in
          get-set_other n.id id (Membership.saved n) s.store.memberships (
            apart_new n.id id m s.store.memberships h
              (check-membership_new commit s.store is.version passed).0)
          ∙ h
  step_owner_kept id m (changes s j k action at event work bus a role moves) p o h =
      let commit : MembershipCommit = record { membership = k; event = event; work = work } in
      by_cases (λ t. get id t.memberships ≡ some m) s.store
        (commit_membership publish commit s.store bus) (with_membership k s.store)
        (check_membership commit s.store ≡ ok tt) (membership_cases publish s.store bus commit) h
        λ passed.
          let e =
            ensured (MembershipKeeps j) (membership_step j action at)
              (membership_step-Keeps j action at) moves in
          get-set_other k.id id (Membership.saved k) s.store.memberships (
            apart_old has_owner k.id id m j s.store.memberships h
              (membership_replaced s j k event work p.sound a e passed) o role)
          ∙ h
  step_owner_kept id m (invites s input actor i event work bus a owns issued) p o h =
      let commit : InvitationCommit = record { invitation = i; event = event; work = work } in
      by_cases (λ t. get id t.memberships ≡ some m) s.store
        (commit_invitation publish commit s.store bus) (with_invitation i s.store)
        (check_invitation commit s.store ≡ ok tt) (invitation_cases publish s.store bus commit) h
        λ passed. h
  step_owner_kept id m (revokes s i j at event work bus a moves) p o h =
      let commit : InvitationCommit = record { invitation = j; event = event; work = work } in
      by_cases (λ t. get id t.memberships ≡ some m) s.store
        (commit_invitation publish commit s.store bus) (with_invitation j s.store)
        (check_invitation commit s.store ≡ ok tt) (invitation_cases publish s.store bus commit) h
        λ passed. h
  step_owner_kept id m (accepts s i j x n at events work bus a moves added) p o h =
      let commit : InvitationAcceptanceCommit = record {
        invitation = j;
        membership = n;
        events = events;
        work = work;
      } in
      by_cases (λ t. get id t.memberships ≡ some m) s.store
        (commit_acceptance publish commit s.store bus) (with_acceptance j n s.store)
        (check_acceptance commit s.store ≡ ok tt) (acceptance_cases publish s.store bus commit) h
        λ passed.
          let (q, there, pending, version, new, free) = check-acceptance commit s.store passed in
          get-set_other n.id id (Membership.saved n) s.store.memberships
            (apart_new n.id id m s.store.memberships h new)
          ∙ h

  -- Once an owner's membership is stored in a safe system, no interleaving of commands changes or removes it.
  pub owner_kept :
      {s t : System} (id : Identifier) (m : Membership)
      → Reach publish s t
      → IsSafe s
      → is_owner m.role ≡ true
      → get id s.store.memberships ≡ some m
      → get id t.store.memberships ≡ some m
  owner_kept id m unmoved p o h = h
  owner_kept id m (next r st) p o h =
      step_owner_kept id m st (organizations-IsSafe publish p r) o (owner_kept id m r p o h)
