-- ===== src/Organization/Commands/Steps.antt =====
-- Each command of src/modules/organization/app/commands takes at most one step of the histories of
-- Organization.History, whatever committed between its reads and its commit.
use n2f_nest.Prelude.{◌≡◌, refl, sym, subst, ◌∙◌}
use n2f_nest.Shared.Errors.{Result, ok}
use n2f_nest.Shared.Text.{text_eq}
use n2f_nest.Shared.Ids.{Identifier}
use n2f_nest.Shared.Events.{Envelope}
use n2f_nest.Shared.Effects.{Action, lift, on_error, ◌>>=◌, ◌>>◌, bind_cases, lift_cases}
use n2f_nest.Organization.Failures.{dependency_failure}
use n2f_nest.Organization.Terms.{MembershipStep, membership_step, invitation_step}
use n2f_nest.Organization.Store.{OrganizationStore}
use n2f_nest.Organization.History.{System, Step, creates, adds, changes, invites, revokes, accepts}
use n2f_nest.Organization.Commands.{Ports, World, next_id, store-next_id, through}
use n2f_nest.Organization.Commands.Create.{CreateOrganizationCommand, create_organization}
use n2f_nest.Organization.Commands.Members.{
  AddMembershipCommand, add_membership, ChangeMembershipRoleCommand, change_membership_role,
  RevokeMembershipCommand, revoke_membership,
}
use n2f_nest.Organization.Commands.Invite.{
  InviteIdentityCommand, invite_identity, RevokeInvitationCommand, revoke_invitation,
}
use n2f_nest.Organization.Commands.Accept.{AcceptInvitationCommand, accept_invitation}
use n2f_nest.Organization.Commands.Reads.{
  Covers, owner_or-Authorized, lower_member-ok, invitation_in-ok, state-on_error,
}

-- The commands.
pub data Command : Type 0 where
  create_organization_by : CreateOrganizationCommand → Command
  add_membership_by : AddMembershipCommand → Command
  change_membership_role_by : ChangeMembershipRoleCommand → Command
  revoke_membership_by : RevokeMembershipCommand → Command
  invite_identity_by : InviteIdentityCommand → Command
  revoke_invitation_by : RevokeInvitationCommand → Command
  accept_invitation_by : AcceptInvitationCommand → Command

-- The store is as it was, or one step further.
pub data Moves {B : Type 0} (publish : Envelope → Action B (Unit {0})) (s : System)
    (store : OrganizationStore) : Type 0 where
  stays : store ≡ s.store → Moves publish s store
  steps : {t : System} → Step publish s t → t.store ≡ store → Moves publish s store

module _ {B G : Type 0} (ports : Ports B G) (read : OrganizationStore) (s : System)
    (covers : Covers read s) (w : World B G) (same : w.store ≡ s.store) where
  abbrev Out : {R : Type 0} → Result R × World B G → Type 0
  Out r = Moves ports.publish s r.1.store

  -- A commit at the end of a command, and the answer.
  commit-Moves :
      {R : Type 0} (commit : OrganizationStore → B → Result (Unit {0}) × OrganizationStore × B)
      (answer : Action (World B G) R) (v : World B G)
      → v.store ≡ s.store
      → ((u : World B G) → (answer u).1 ≡ u)
      → ((bus : B) → Moves ports.publish s (commit s.store bus).1)
      → Moves ports.publish s
          ((on_error dependency_failure (through ports commit) >> answer) v).1.store
  commit-Moves {R = R} commit answer v e quiet moves =
      let there = subst (λ x. Moves ports.publish s (commit x v.bus).1) (sym e) (moves v.bus) in
      let kept = state-on_error dependency_failure (through ports commit) v in
      let after = subst (λ (x : World B G). Moves ports.publish s x.store) (sym kept) there in
      bind_cases (Out {R = R}) (on_error dependency_failure (through ports commit)) (λ u. answer) v
        (λ f h. after)
        λ u h. subst (λ (x : World B G). Moves ports.publish s x.store) (sym (quiet _)) after

  -- The rest of a command after a result that it needs: without it, nothing is written.
  need :
      {A R : Type 0} (r : Result A) (f : A → Action (World B G) R) (v : World B G)
      → v.store ≡ s.store
      → ((a : A) → r ≡ ok a → Moves ports.publish s (f a v).1.store)
      → Moves ports.publish s ((lift r >>= f) v).1.store
  need {R = R} r f v e rest = lift_cases (Out {R = R}) r f v (λ failure h. stays e) rest

  -- The rest of a command after it drew an ID.
  draw :
      {R : Type 0} (type : _) (f : Identifier → Action (World B G) R) (v : World B G)
      → v.store ≡ s.store
      → ((id : Identifier) (u : World B G)
          → u.store ≡ s.store
          → Moves ports.publish s (f id u).1.store)
      → Moves ports.publish s ((next_id ports type >>= f) v).1.store
  draw {R = R} type f v e rest =
      let kept = store-next_id ports type v ∙ e in
      bind_cases (Out {R = R}) (next_id ports type) f v (λ failure h. stays kept)
        λ id h. rest id (next_id ports type v).1 kept

  create-Moves :
      (command : CreateOrganizationCommand)
      → Moves ports.publish s (create_organization ports command w).1.store
  unfolding create_organization
  create-Moves command = need _ _ _ same λ u named. need _ _ _ same λ identity known.
      draw _ _ _ same λ id w1 e1. need _ _ _ e1 λ organization made.
        draw _ _ _ e1 λ membership_id w2 e2. need _ _ _ e2 λ membership added.
          draw _ _ _ e2 λ first_id w3 e3. need _ _ _ e3 λ first first_made.
            draw _ _ _ e3 λ second_id w4 e4. need _ _ _ e4 λ second second_made.
              commit-Moves _ _ _ e4 (λ v. refl)
                λ bus.
                  steps
                    (creates s _ membership_id identity organization membership _ _ bus made added)
                    refl

  add-Moves :
      (command : AddMembershipCommand)
      → Moves ports.publish s (add_membership ports command read w).1.store
  unfolding add_membership
  add-Moves command = need _ _ _ same λ u named. need _ _ _ same λ actor known.
      need _ _ _ same λ owner granted. need _ _ _ same λ identity looked.
        need _ _ _ same λ found present. need _ _ _ same λ v alone. draw _ _ _ same λ id w1 e1.
          need _ _ _ e1 λ membership added. draw _ _ _ e1 λ event_id w2 e2.
            need _ _ _ e2 λ event made.
              let is =
                owner_or-Authorized read command.organization_id actor _ owner covers.distinct
                  granted in
              commit-Moves _ _ _ e2 (λ v. refl)
                λ bus.
                  steps
                    (adds s _ owner membership event command.work bus
                      (covers.memberships is.key owner is.held) is.owns added)
                    refl

  change-Moves :
      (command : ChangeMembershipRoleCommand)
      → Moves ports.publish s (change_membership_role ports command read w).1.store
  unfolding change_membership_role membership_step
  change-Moves command = need _ _ _ same λ u named. need _ _ _ same λ actor known.
      need _ _ _ same λ owner granted. need _ _ _ same λ membership found.
        need _ _ _ same λ changed moved. draw _ _ _ same λ event_id w1 e1.
          need _ _ _ e1 λ event made.
            let (held, place, lower) = lower_member-ok command.organization_id _ membership found in
            commit-Moves _ _ _ e1 (λ v. refl)
              λ bus.
                steps
                  (changes s membership changed (MembershipStep.changes_role command.role) ports.now
                    event command.work bus
                    (covers.memberships command.membership_id membership held) lower moved)
                  refl

  revoke-Moves :
      (command : RevokeMembershipCommand)
      → Moves ports.publish s (revoke_membership ports command read w).1.store
  unfolding revoke_membership membership_step
  revoke-Moves command = need _ _ _ same λ u named. need _ _ _ same λ actor known.
      need _ _ _ same λ owner granted. need _ _ _ same λ membership found.
        need _ _ _ same λ changed moved. draw _ _ _ same λ event_id w1 e1.
          need _ _ _ e1 λ event made.
            let (held, place, lower) = lower_member-ok command.organization_id _ membership found in
            commit-Moves _ _ _ e1 (λ v. refl)
              λ bus.
                steps
                  (changes s membership changed MembershipStep.revokes ports.now event command.work
                    bus (covers.memberships command.membership_id membership held) lower moved)
                  refl

  invite-Moves :
      (command : InviteIdentityCommand)
      → Moves ports.publish s (invite_identity ports command read w).1.store
  unfolding invite_identity
  invite-Moves command = need _ _ _ same λ u named. need _ _ _ same λ actor known.
      need _ _ _ same λ owner granted. need _ _ _ same λ identity looked.
        need _ _ _ same λ found present. need _ _ _ same λ v alone.
          need _ _ _ same λ x none_pending. draw _ _ _ same λ id w1 e1.
            need _ _ _ e1 λ invitation issued. draw _ _ _ e1 λ event_id w2 e2.
              need _ _ _ e2 λ event made.
                let is =
                  owner_or-Authorized read command.organization_id actor _ owner covers.distinct
                    granted in
                commit-Moves _ _ _ e2 (λ v. refl)
                  λ bus.
                    steps
                      (invites s _ owner invitation event command.work bus
                        (covers.memberships is.key owner is.held) is.owns issued)
                      refl

  revoke_invitation-Moves :
      (command : RevokeInvitationCommand)
      → Moves ports.publish s (revoke_invitation ports command read w).1.store
  unfolding revoke_invitation invitation_step
  revoke_invitation-Moves command = need _ _ _ same λ u named. need _ _ _ same λ actor known.
      need _ _ _ same λ owner granted. need _ _ _ same λ invitation found.
        need _ _ _ same λ revoked moved. draw _ _ _ same λ event_id w1 e1.
          need _ _ _ e1 λ event made.
            let (held, place) = invitation_in-ok command.organization_id _ invitation found in
            commit-Moves _ _ _ e1 (λ v. refl)
              λ bus.
                steps
                  (revokes s invitation revoked ports.now event command.work bus
                    (covers.invitations command.invitation_id invitation held) moved)
                  refl

  accept-Moves :
      (command : AcceptInvitationCommand)
      → Moves ports.publish s (accept_invitation ports command read w).1.store
  unfolding accept_invitation invitation_step
  accept-Moves command = need _ _ _ same λ u named. need _ _ _ same λ actor known.
      need _ _ _ same λ invitation found. need _ _ _ same λ v invited. need _ _ _ same λ x alone.
        need _ _ _ same λ accepted moved. draw _ _ _ same λ id w1 e1.
          need _ _ _ e1 λ membership added. draw _ _ _ e1 λ first_id w2 e2.
            need _ _ _ e2 λ first first_made. draw _ _ _ e2 λ second_id w3 e3.
              need _ _ _ e3 λ second second_made.
                let (held, place) = invitation_in-ok command.organization_id _ invitation found in
                commit-Moves _ _ _ e3 (λ v. refl)
                  λ bus.
                    steps
                      (accepts s invitation accepted id membership ports.now _ command.work bus
                        (covers.invitations command.invitation_id invitation held) moved added)
                      refl

  -- The store after a command.
  abbrev pub store_after : Command → OrganizationStore
  store_after (create_organization_by c) = (create_organization ports c w).1.store
  store_after (add_membership_by c) = (add_membership ports c read w).1.store
  store_after (change_membership_role_by c) = (change_membership_role ports c read w).1.store
  store_after (revoke_membership_by c) = (revoke_membership ports c read w).1.store
  store_after (invite_identity_by c) = (invite_identity ports c read w).1.store
  store_after (revoke_invitation_by c) = (revoke_invitation ports c read w).1.store
  store_after (accept_invitation_by c) = (accept_invitation ports c read w).1.store

  -- Whatever its ports answer, each command leaves the store as it is or takes one step of the histories, if the system has recorded
  -- what it read.
  pub command-Moves : (c : Command) → Moves ports.publish s (store_after c)
  command-Moves (create_organization_by c) = create-Moves c
  command-Moves (add_membership_by c) = add-Moves c
  command-Moves (change_membership_role_by c) = change-Moves c
  command-Moves (revoke_membership_by c) = revoke-Moves c
  command-Moves (invite_identity_by c) = invite-Moves c
  command-Moves (revoke_invitation_by c) = revoke_invitation-Moves c
  command-Moves (accept_invitation_by c) = accept-Moves c
