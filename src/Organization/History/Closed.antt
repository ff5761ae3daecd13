-- ===== src/Organization/History/Closed.antt =====
-- No interleaving of commands changes the invitations that were accepted or revoked, in the store of
-- src/modules/organization/infra/in-memory.
use n2f_nest.Prelude.{◌≡◌, ◌∙◌, Bool, false, not, some, arith}
use n2f_nest.Prelude.Maps.{get}
use n2f_nest.Shared.Errors.{ok, ensured}
use n2f_nest.Shared.Text.{text_eq}
use n2f_nest.Shared.Ids.{Identifier}
use n2f_nest.Shared.Events.{Envelope}
use n2f_nest.Shared.Effects.{Action}
use n2f_nest.Shared.Tables.{get-set_other}
use n2f_nest.Organization.Invitation
use n2f_nest.Organization.Invitation.{Invitation, is_pending}
use n2f_nest.Organization.Terms.{
  InvitationStep, invitation_step, InvitationKeeps, invitation_step-Keeps,
}
use n2f_nest.Organization.Writers.{
  CreateOrganizationCommit, MembershipCommit, InvitationCommit, InvitationAcceptanceCommit,
  with_organization, with_membership, with_invitation, with_acceptance, check_organization,
  check_membership, check_invitation, check_acceptance, commit_organization, commit_membership,
  commit_invitation, commit_acceptance,
}
use n2f_nest.Organization.Writes.{
  check-acceptance, check-invitation_new, check-invitation_change, organization_cases,
  membership_cases, invitation_cases, acceptance_cases,
}
use n2f_nest.Organization.History.{
  System, Step, reads_membership, reads_invitation, creates, adds, changes, invites, revokes,
  accepts, Reach, unmoved, next, IsSafe,
}
use n2f_nest.Organization.History.Changes.{Issued, issue-Issued, invitation_replaced}
use n2f_nest.Organization.History.Safety.{organizations-IsSafe}
use n2f_nest.Organization.History.Untouched.{apart_new, apart_old, by_cases}

abbrev is_closed : Invitation → Bool
is_closed i = not (is_pending i.status)

module _ {B : Type 0} (publish : Envelope → Action B (Unit {0})) where
  -- A write over an invitation that was pending leaves a closed one.
  replaced_apart :
      (s : System) (i j : Invitation) (id : Identifier) (v : Invitation)
      → get id s.store.invitations ≡ some v
      → is_pending v.status ≡ false
      → InvitationKeeps i j
      → get j.id s.store.invitations ≡ some i
      → get id (with_invitation j s.store).invitations ≡ get id s.store.invitations
  replaced_apart s i j id v h o e found =
      get-set_other j.id id (Invitation.saved j) s.store.invitations (
        apart_old is_closed j.id id v i s.store.invitations h found (ground arith)
          (ground (arith, e.was_pending)))

  -- Each step keeps a closed invitation.
  step_closed_kept :
      {s t : System} (id : Identifier) (v : Invitation)
      → Step publish s t
      → IsSafe s
      → is_pending v.status ≡ false
      → get id s.store.invitations ≡ some v
      → get id t.store.invitations ≡ some v
  step_closed_kept id v (reads_membership s i n g) p o h = h
  step_closed_kept id v (reads_invitation s i n g) p o h = h
  step_closed_kept id v (creates s input x identity org n events work bus made added) p o h =
      let commit : CreateOrganizationCommit = record {
        organization = org;
        owner_membership = n;
        events = events;
        work = work;
      } in
      by_cases (λ t. get id t.invitations ≡ some v) s.store
        (commit_organization publish commit s.store bus) (with_organization org n s.store)
        (check_organization commit s.store ≡ ok tt) (organization_cases publish s.store bus commit)
        h λ passed. h
  step_closed_kept id v (adds s input actor n event work bus a owns added) p o h =
      let commit : MembershipCommit = record { membership = n; event = event; work = work } in
      by_cases (λ t. get id t.invitations ≡ some v) s.store
        (commit_membership publish commit s.store bus) (with_membership n s.store)
        (check_membership commit s.store ≡ ok tt) (membership_cases publish s.store bus commit) h
        λ passed. h
  step_closed_kept id v (changes s j k action at event work bus a role moves) p o h =
      let commit : MembershipCommit = record { membership = k; event = event; work = work } in
      by_cases (λ t. get id t.invitations ≡ some v) s.store
        (commit_membership publish commit s.store bus) (with_membership k s.store)
        (check_membership commit s.store ≡ ok tt) (membership_cases publish s.store bus commit) h
        λ passed. h
  step_closed_kept id v (invites s input actor i event work bus a owns issued) p o h =
      let commit : InvitationCommit = record { invitation = i; event = event; work = work } in
      by_cases (λ t. get id t.invitations ≡ some v) s.store
        (commit_invitation publish commit s.store bus) (with_invitation i s.store)
        (check_invitation commit s.store ≡ ok tt) (invitation_cases publish s.store bus commit) h
        λ passed.
          let is = ensured (Issued input) (Invitation.issue input) (issue-Issued input) issued in
          get-set_other i.id id (Invitation.saved i) s.store.invitations (
            apart_new i.id id v s.store.invitations h
              (check-invitation_new commit s.store is.version is.pending passed).0)
          ∙ h
  step_closed_kept id v (revokes s i j at event work bus a moves) p o h =
      let commit : InvitationCommit = record { invitation = j; event = event; work = work } in
      by_cases (λ t. get id t.invitations ≡ some v) s.store
        (commit_invitation publish commit s.store bus) (with_invitation j s.store)
        (check_invitation commit s.store ≡ ok tt) (invitation_cases publish s.store bus commit) h
        λ passed.
          let e =
            ensured (InvitationKeeps i) (invitation_step i InvitationStep.revokes at)
              (invitation_step-Keeps i InvitationStep.revokes at) moves in
          let (q, there, version) =
            check-invitation_change commit s.store
              (ground (arith, e.version, p.sound.invitations.read i a)) passed in
          replaced_apart s i j id v h o e (invitation_replaced s i j q p.sound a e there version)
          ∙ h
  step_closed_kept id v (accepts s i j x n at events work bus a moves added) p o h =
      let commit : InvitationAcceptanceCommit = record {
        invitation = j;
        membership = n;
        events = events;
        work = work;
      } in
      by_cases (λ t. get id t.invitations ≡ some v) s.store
        (commit_acceptance publish commit s.store bus) (with_acceptance j n s.store)
        (check_acceptance commit s.store ≡ ok tt) (acceptance_cases publish s.store bus commit) h
        λ passed.
          let e =
            ensured (InvitationKeeps i) (invitation_step i InvitationStep.accepts at)
              (invitation_step-Keeps i InvitationStep.accepts at) moves in
          let (q, there, pending, version, new, free) = check-acceptance commit s.store passed in
          replaced_apart s i j id v h o e (invitation_replaced s i j q p.sound a e there version)
          ∙ h

  -- Once an invitation is accepted or revoked in a safe system, no interleaving of commands changes or removes it: it
  -- is not accepted again.
  pub closed_kept :
      {s t : System} (id : Identifier) (v : Invitation)
      → Reach publish s t
      → IsSafe s
      → is_pending v.status ≡ false
      → get id s.store.invitations ≡ some v
      → get id t.store.invitations ≡ some v
  closed_kept id v unmoved p o h = h
  closed_kept id v (next r st) p o h =
      step_closed_kept id v st (organizations-IsSafe publish p r) o (closed_kept id v r p o h)
