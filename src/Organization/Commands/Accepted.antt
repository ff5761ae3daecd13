-- ===== src/Organization/Commands/Accepted.antt =====
-- What accepting an invitation does (src/modules/organization/app/commands/accept-invitation.ts).
use n2f_nest.Prelude.{
  ◌<◌, ◌≡◌, refl, ap, subst, ◌∙◌, ◌⊎◌, inl, inr, true, false, Option, none, some, [], ◌∷◌, arith,
}
use n2f_nest.Prelude.Maps.{get}
use n2f_nest.Shared.Errors.{
  Failure, Result, ok, err, is_ok, require, map_error-ok, Ensures, ensured,
}
use n2f_nest.Shared.Dates.{Time, Date, time}
use n2f_nest.Shared.Text.{text_eq, text_beq_iff}
use n2f_nest.Shared.Values.{string}
use n2f_nest.Shared.Ids.{Identifier}
use n2f_nest.Shared.Effects.{Action, mapped, lift, on_error, ◌>>=◌, bind_cases, lift_cases}
use n2f_nest.Organization.Failures.{dependency_failure}
use n2f_nest.Organization.Membership
use n2f_nest.Organization.Membership.{Membership, role_of}
use n2f_nest.Organization.Invitation
use n2f_nest.Organization.Invitation.{Invitation, is_pending, is_expired}
use n2f_nest.Organization.Store.{OrganizationStore, find_for_identity}
use n2f_nest.Organization.Writers.{
  InvitationAcceptanceCommit, with_acceptance, check_acceptance, commit_acceptance,
}
use n2f_nest.Organization.Writes.{acceptance_cases}
use n2f_nest.Organization.History.{role_text}
use n2f_nest.Organization.History.Changes.{Added, add-Added}
use n2f_nest.Organization.Commands.{Ports, World, missing, next_id, store-next_id, through}
use n2f_nest.Organization.Commands.Accept.{
  AcceptInvitationCommand, AcceptInvitationResult, accept_invitation,
}
use n2f_nest.Organization.Commands.Reads.{invitation_in-ok}

-- An invitation that was accepted was pending and had not expired.
record Taken (i : Invitation) (at : Date) (j : Invitation) : Type 0 where
  t : Time
  when : at ≡ time t
  was_pending : is_pending i.status ≡ true
  in_time : t < i.expires_at
  becomes : j ≡ record i { status = Invitation.accepted; updated_at = t; accepted_at = some t }

accept-Taken : (i : Invitation) (at : Date) → Ensures (Taken i at) (Invitation.accept i at)
unfolding Invitation.accept Invitation.transition_time is_expired
accept-Taken i at = ground arith

require-ok : (b : _) (e : Failure) {u : Unit {0}} → require b e ≡ ok u → b ≡ true
require-ok b e h = ground arith

time_of : {d : Date} {t u : Time} → d ≡ time u → d ≡ time t → u ≡ t
time_of e f = cc

missing-ok :
    {A : Type 0} (e : Failure) (o : Option A) {u : Unit {0}} → missing e o ≡ ok u → o ≡ none
missing-ok e none h = refl
missing-ok e (some a) h = cc

module _ {B G : Type 0} (ports : Ports B G) (input : InvitationAcceptanceCommit)
    (w : World B G) where
  abbrev written : Result (Unit {0}) × World B G
  written = on_error dependency_failure (through ports (commit_acceptance ports.publish input)) w

  mapped_cases :
      (r : Result (Unit {0})) (v : World B G)
      → ((is_ok r ≡ false) × (v.store ≡ w.store))
        ⊎ ((is_ok r ≡ true)
            × (v.store ≡ with_acceptance input.invitation input.membership w.store)
            × (check_acceptance input w.store ≡ ok tt))
      → let after = mapped dependency_failure (r, v) in
        ((is_ok after.0 ≡ false) × (after.1.store ≡ w.store))
        ⊎ ((is_ok after.0 ≡ true)
            × (after.1.store ≡ with_acceptance input.invitation input.membership w.store)
            × (check_acceptance input w.store ≡ ok tt))
  mapped_cases (ok u) v h = h
  mapped_cases (err e) v h = h

  write_cases :
      ((is_ok written.0 ≡ false) × (written.1.store ≡ w.store))
      ⊎ ((is_ok written.0 ≡ true)
          × (written.1.store ≡ with_acceptance input.invitation input.membership w.store)
          × (check_acceptance input w.store ≡ ok tt))
  write_cases =
      mapped_cases _ (through ports (commit_acceptance ports.publish input) w).1
        (acceptance_cases ports.publish w.store w.bus input)

  pub accepted-err : {e : Failure} → written.0 ≡ err e → written.1.store ≡ w.store
  accepted-err h = elim write_cases [ inl p ↦ p.1 | inr p ↦ absurd (cc (p.0, ap is_ok h)) ]

  pub accepted-ok :
      {u : Unit {0}}
      → written.0 ≡ ok u
      → (written.1.store ≡ with_acceptance input.invitation input.membership w.store)
        × (check_acceptance input w.store ≡ ok tt)
  accepted-ok h = elim write_cases [ inl p ↦ absurd (cc (p.0, ap is_ok h)) | inr p ↦ (p.1, p.2) ]

-- What a successful acceptance did: who accepted, which invitation, and what was written.
pub record Accepted {B G : Type 0} (ports : Ports B G) (command : AcceptInvitationCommand)
    (read before after : OrganizationStore) (result : AcceptInvitationResult) : Type 0 where
  pub actor : Identifier
  pub known : ports.find_current command.session_token ≡ ok actor
  pub invitation : Invitation
  pub was_read : get command.invitation_id read.invitations ≡ some invitation
  pub same_organization : invitation.organization_id ≡ command.organization_id
  pub invited : invitation.identity_id ≡ actor
  pub was_pending : is_pending invitation.status ≡ true
  pub t : Time
  pub now : ports.now ≡ time t
  pub in_time : t < invitation.expires_at
  pub no_member : find_for_identity command.organization_id actor read ≡ none
  pub input : InvitationAcceptanceCommit
  pub checked : check_acceptance input before ≡ ok tt
  pub written : after ≡ with_acceptance input.invitation input.membership before
  pub closes :
      input.invitation
      ≡ record invitation { status = Invitation.accepted; updated_at = t; accepted_at = some t }
  pub joins_organization : input.membership.organization_id ≡ command.organization_id
  pub joins_identity : input.membership.identity_id ≡ actor
  pub joins_role : role_of (string (role_text invitation.role)) ≡ ok input.membership.role
  pub joins_active : input.membership.status ≡ Membership.active
  pub joins_unrevoked : input.membership.revoked_at ≡ none
  pub joins_now : input.membership.created_at ≡ t
  pub joins_updated : input.membership.updated_at ≡ t
  pub joins_unsaved : input.membership.version ≡ 0
  pub answered : result.membership_id ≡ input.membership.id
  pub answered_invitation : result.invitation_id ≡ invitation.id
  pub answered_organization : result.organization_id ≡ command.organization_id
  pub answered_identity : result.identity_id ≡ actor
  pub answered_role : result.role ≡ invitation.role

-- The outcomes: it accepted the invitation, or it failed and wrote nothing.
pub data AcceptOutcome {B G : Type 0} (ports : Ports B G) (command : AcceptInvitationCommand)
    (read : OrganizationStore) (w : World B G)
    : Result AcceptInvitationResult × World B G → Type 0 where
  done :
      {r : AcceptInvitationResult} {after : World B G}
      → Accepted ports command read w.store after.store r
      → AcceptOutcome ports command read w (ok r, after)
  refused :
      {e : Failure} {after : World B G}
      → after.store ≡ w.store
      → AcceptOutcome ports command read w (err e, after)

module _ {B G : Type 0} (ports : Ports B G) (command : AcceptInvitationCommand)
    (read : OrganizationStore) (w : World B G) where
  abbrev Out : Result AcceptInvitationResult × World B G → Type 0
  Out = AcceptOutcome ports command read w

  need :
      {A : Type 0} (r : Result A) (f : A → Action (World B G) AcceptInvitationResult)
      (v : World B G)
      → v.store ≡ w.store
      → ((a : A) → r ≡ ok a → Out (f a v))
      → Out ((lift r >>= f) v)
  need r f v e rest = lift_cases Out r f v (λ failure h. refused e) rest

  draw :
      (f : Identifier → Action (World B G) AcceptInvitationResult) (v : World B G)
      → v.store ≡ w.store
      → ((id : Identifier) (u : World B G) → u.store ≡ w.store → Out (f id u))
      → Out ((next_id ports "organization.invitation.id_generation" >>= f) v)
  draw f v e rest =
      let kept = store-next_id ports "organization.invitation.id_generation" v ∙ e in
      bind_cases Out (next_id ports "organization.invitation.id_generation") f v
        (λ failure h. refused kept)
        λ id h. rest id (next_id ports "organization.invitation.id_generation" v).1 kept

  -- A request to accept an invitation either fails and leaves the store as it was, or it came from the invited identity, which had no
  -- membership in the organization; the invitation that was read there was pending and had not expired; the writer's
  -- checks passed; and what was stored is the invitation as accepted, and an active membership of that identity in that
  -- organization with the role of the invitation, since now, not revoked, which the answer names.
  pub accept_invitation-Outcome :
      AcceptOutcome ports command read w (accept_invitation ports command read w)
  unfolding accept_invitation
  accept_invitation-Outcome = need _ _ _ refl λ u named. need _ _ _ refl λ actor known.
      need _ _ _ refl λ invitation found. need _ _ _ refl λ v invited. need _ _ _ refl λ x alone.
        need _ _ _ refl λ accepted moved. draw _ _ refl λ id w1 e1.
          need _ _ _ e1 λ membership added. draw _ _ e1 λ first_id w2 e2.
            need _ _ _ e2 λ first first_made. draw _ _ e2 λ second_id w3 e3.
              need _ _ _ e3 λ second second_made.
                let (held, place) = invitation_in-ok command.organization_id _ invitation found in
                let taken =
                  ensured (Taken invitation ports.now) _ (accept-Taken invitation ports.now)
                    moved in
                let is = ensured (Added _) (Membership.add _) (add-Added _) added in
                let joined = time_of is.created_at taken.when in
                let in_organization =
                  is.organization_id
                  ∙ ap (λ (j : Invitation). j.organization_id) taken.becomes
                  ∙ place in
                let of_identity =
                  is.identity_id
                  ∙ ap (λ (j : Invitation). j.identity_id) taken.becomes
                  ∙ (text_beq_iff invitation.identity_id actor).0 (require-ok _ _ invited) in
                let input : InvitationAcceptanceCommit = record {
                  invitation = accepted;
                  membership = membership;
                  events = first ∷ second ∷ [];
                  work = command.work;
                } in
                bind_cases Out _ _ w3 (λ e h. refused (accepted-err ports input w3 h ∙ e3))
                  λ y h.
                    let (stored, checked) = accepted-ok ports input w3 h in
                    done (record {
                      actor = actor;
                      known = map_error-ok _ _ known;
                      invitation = invitation;
                      was_read = held;
                      same_organization = place;
                      invited =
                          (text_beq_iff invitation.identity_id actor).0 (require-ok _ _ invited);
                      was_pending = taken.was_pending;
                      t = taken.t;
                      now = taken.when;
                      in_time = taken.in_time;
                      no_member = missing-ok _ _ alone;
                      input = input;
                      checked = subst (λ s. check_acceptance input s ≡ ok tt) e3 checked;
                      written = stored ∙ ap (with_acceptance accepted membership) e3;
                      closes = taken.becomes;
                      joins_organization = in_organization;
                      joins_identity = of_identity;
                      joins_role =
                          subst
                            (λ (r : Invitation.InvitationRole).
                              role_of (string (role_text r)) ≡ ok membership.role)
                            (ap (λ (j : Invitation). j.role) taken.becomes) is.role;
                      joins_active = is.status;
                      joins_unrevoked = is.revoked_at;
                      joins_now = joined;
                      joins_updated = is.updated_at ∙ joined;
                      joins_unsaved = is.version;
                      answered = refl;
                      answered_invitation = ap (λ (j : Invitation). j.id) taken.becomes;
                      answered_organization = in_organization;
                      answered_identity = of_identity;
                      answered_role = ap (λ (j : Invitation). j.role) taken.becomes;
                    })
