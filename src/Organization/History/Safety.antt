-- ===== src/Organization/History/Safety.antt =====
-- The invariant of interleaved commands on the store of src/modules/organization/infra/in-memory.
use n2f_nest.Prelude.{◌≡◌, refl, sym, subst, ◌∙◌, ◌⊎◌, inl, inr, true, false, none, some, arith}
use n2f_nest.Prelude.Maps.{get}
use n2f_nest.Shared.Errors.{Result, ok, ensured, is_ok}
use n2f_nest.Shared.Text.{codes, text_eq}
use n2f_nest.Shared.Values.{string}
use n2f_nest.Shared.Ids.{Identifier}
use n2f_nest.Shared.Events.{Envelope}
use n2f_nest.Shared.Effects.{Action}
use n2f_nest.Shared.Tables.{Among, Every, set-Every, get-set_same}
use n2f_nest.Organization.Organization
use n2f_nest.Organization.Organization.{Organization}
use n2f_nest.Organization.Membership
use n2f_nest.Organization.Membership.{Membership, owner, role_of}
use n2f_nest.Organization.Invitation
use n2f_nest.Organization.Invitation.{Invitation, is_pending}
use n2f_nest.Organization.Terms.{
  membership_step, MembershipKeeps, membership_step-Keeps, InvitationStep, invitation_step,
  InvitationKeeps, invitation_step-Keeps,
}
use n2f_nest.Organization.Store.{OrganizationStore}
use n2f_nest.Organization.Writers.{
  CreateOrganizationCommit, MembershipCommit, InvitationCommit, InvitationAcceptanceCommit,
  with_organization, with_membership, with_invitation, with_acceptance, check_organization,
  check_membership, check_invitation, check_acceptance, commit_organization, commit_membership,
  commit_invitation, commit_acceptance,
}
use n2f_nest.Organization.Writes.{
  check-organization, check-acceptance, check-membership_new, check-invitation_new,
  check-invitation_change, organization_cases, membership_cases, invitation_cases, acceptance_cases,
}
use n2f_nest.Organization.History.{
  is_owner, System, Step, reads_membership, reads_invitation, creates, adds, changes, invites,
  revokes, accepts, Reach, unmoved, next, SameSlug, SamePlace, BothPending, Exists, Owner, IsSound,
  IsOwned, IsSafe,
}
use n2f_nest.Organization.History.Sound.{
  free_slug, free_place, free_invitation, with_one_organization, moved, organization-IsSound,
  invitation-IsSound, membership-Owner,
}
use n2f_nest.Organization.History.Changes.{
  Added, add-Added, Issued, issue-Issued, membership_replaced, invitation_replaced, changed-IsSound,
  closed-IsSound, new-IsSound, read_membership-IsSound, read_invitation-IsSound,
}

role-owner :
    (m : Membership) → role_of (string (codes "owner")) ≡ ok m.role → is_owner m.role ≡ true
unfolding role_of
role-owner m h = ground arith

same-Owner :
    (k : Identifier) (s t : OrganizationStore)
    → s.memberships ≡ t.memberships
    → Owner k s
    → Owner k t
same-Owner k s t e o = record {
  key = o.key;
  held = o.held;
  stored = subst (λ x. get o.key x ≡ some o.held) e o.stored;
  owns = o.owns;
}

-- A new organization is sound, with the membership of its owner.
created-IsSafe :
    (s : System) (o : Organization) (m : Membership)
    → IsSafe s
    → m.organization_id ≡ o.id
    → is_owner m.role ≡ true
    → m.status ≡ Membership.active
    → get o.id s.store.organizations ≡ none
    → Every (λ k b. SameSlug o b → o.id ≡ k) s.store.organizations
    → get m.id s.store.memberships ≡ none
    → IsSafe (moved s (with_organization o m s.store))
unfolding Organization.saved Membership.saved
created-IsSafe s o m p place role status new free alone = record {
  sound =
      new-IsSound (moved s (with_one_organization o s.store)) m
        (organization-IsSound s o p.sound new free) alone
        (λ k b h c.
          let (q, found) = p.sound.placed k b h in
          let here : get o.id s.store.organizations ≡ some q =
            subst (λ x. get x s.store.organizations ≡ some q) (sym c.organization_id ∙ place)
              found in
          absurd (cc (here, new)))
        (subst (λ x. Exists x (with_one_organization o s.store)) (sym place)
          (Organization.saved o, get-set_same o.id (Organization.saved o) s.store.organizations));
  owned =
      set-Every (λ k b. Owner k (with_organization o m s.store)) o.id (Organization.saved o)
        s.store.organizations
        (λ k b h.
          same-Owner k (with_membership m s.store) (with_organization o m s.store) refl
            (membership-Owner k m s.store (λ q there. absurd (cc (there, alone))) (p.owned k b h)))
        (record {
          key = m.id;
          held = Membership.saved m;
          stored = get-set_same m.id (Membership.saved m) s.store.memberships;
          owns = record { organization_id = place; is_an_owner = role; is_active = status };
        });
}

-- A membership written over none of an owner keeps every owner.
written-IsOwned :
    (s : OrganizationStore) (m : Membership)
    → IsOwned s
    → ((p : Membership) → get m.id s.memberships ≡ some p → is_owner p.role ≡ false)
    → IsOwned (with_membership m s)
written-IsOwned s m owned other k o h = membership-Owner k m s other (owned k o h)

invitation-IsOwned :
    (s : OrganizationStore) (i : Invitation) → IsOwned s → IsOwned (with_invitation i s)
invitation-IsOwned s i owned k o h = same-Owner k s (with_invitation i s) refl (owned k o h)

-- A new invitation beside which none is pending.
issued-IsSound :
    (s : System) (i : Invitation)
    → IsSound s
    → get i.id s.store.invitations ≡ none
    → Every (λ k b. BothPending i b → i.id ≡ k) s.store.invitations
    → Exists i.organization_id s.store
    → IsSound (moved s (with_invitation i s.store))
unfolding Invitation.saved
issued-IsSound s i p new free there = invitation-IsSound s i p (inl new) free there

-- An acceptance writes the closed invitation and the new membership.
accepted-IsSafe :
    (s : System) (i j : Invitation) (m : Membership)
    → IsSafe s
    → Among i s.invitations_read
    → InvitationKeeps i j
    → get j.id s.store.invitations ≡ some i
    → get m.id s.store.memberships ≡ none
    → Every (λ k b. SamePlace m b → m.id ≡ k) s.store.memberships
    → m.organization_id ≡ j.organization_id
    → IsSafe (moved s (with_acceptance j m s.store))
accepted-IsSafe s i j m p a e found new free place = record {
  sound =
      new-IsSound (moved s (with_invitation j s.store)) m (closed-IsSound s i j p.sound a e found)
        new free
        (subst (λ x. Exists x s.store) (sym (place ∙ e.organization_id))
          (p.sound.invited_read i a));
  owned =
      written-IsOwned (with_invitation j s.store) m (invitation-IsOwned s.store j p.owned)
        λ q there. absurd (cc (there, new));
}

module _ {B : Type 0} (publish : Envelope → Action B (Unit {0})) where
  -- To show that a commit keeps the invariant, show it of what it writes after its checks.
  kept_or_written :
      (s : System) (after : Result (Unit {0}) × OrganizationStore × B) (written : OrganizationStore)
      (passed : Type 0)
      → ((is_ok after.0 ≡ false) × (after.1 ≡ s.store))
        ⊎ ((is_ok after.0 ≡ true) × (after.1 ≡ written) × passed)
      → IsSafe s
      → (passed → IsSafe (moved s written))
      → IsSafe (moved s after.1)
  kept_or_written s after written passed (inl (failed, e)) safe f =
      subst (λ x. IsSafe (moved s x)) (sym e) safe
  kept_or_written s after written passed (inr (done, e, h)) safe f =
      subst (λ x. IsSafe (moved s x)) (sym e) (f h)

  -- Each step keeps the invariant.
  step-IsSafe : {s t : System} → Step publish s t → IsSafe s → IsSafe t
  step-IsSafe (reads_membership s id m h) p = record {
    sound = read_membership-IsSound s id m p.sound h;
    owned = p.owned;
  }
  step-IsSafe (reads_invitation s id i h) p = record {
    sound = read_invitation-IsSound s id i p.sound h;
    owned = p.owned;
  }
  step-IsSafe (creates s input id identity o m events work bus made added) p =
      let commit : CreateOrganizationCommit = record {
        organization = o;
        owner_membership = m;
        events = events;
        work = work;
      } in
      kept_or_written s (commit_organization publish commit s.store bus)
        (with_organization o m s.store) (check_organization commit s.store ≡ ok tt)
        (organization_cases publish s.store bus commit) p
        λ passed.
          let (new, slug, alone) = check-organization commit s.store passed in
          let is = ensured (Added _) (Membership.add _) (add-Added _) added in
          created-IsSafe s o m p is.organization_id (role-owner m is.role) is.status new
            (free_slug o s.store slug) alone
  step-IsSafe (adds s input actor m event work bus a owns added) p =
      let commit : MembershipCommit = record { membership = m; event = event; work = work } in
      kept_or_written s (commit_membership publish commit s.store bus) (with_membership m s.store)
        (check_membership commit s.store ≡ ok tt) (membership_cases publish s.store bus commit) p
        λ passed.
          let is = ensured (Added input) (Membership.add input) (add-Added input) added in
          let (new, free) = check-membership_new commit s.store is.version passed in
          let there = p.sound.placed_read actor a in
          record {
            sound = new-IsSound s m p.sound new (free_place m s.store free) (
                subst (λ x. Exists x s.store) (owns.organization_id ∙ sym is.organization_id)
                  there);
            owned = written-IsOwned s.store m p.owned λ q h. absurd (cc (h, new));
          }
  step-IsSafe (changes s j k action at event work bus a role moves) p =
      let commit : MembershipCommit = record { membership = k; event = event; work = work } in
      kept_or_written s (commit_membership publish commit s.store bus) (with_membership k s.store)
        (check_membership commit s.store ≡ ok tt) (membership_cases publish s.store bus commit) p
        λ passed.
          let e =
            ensured (MembershipKeeps j) (membership_step j action at)
              (membership_step-Keeps j action at) moves in
          let found = membership_replaced s j k event work p.sound a e passed in
          record {
            sound = changed-IsSound s j k p.sound a e found;
            owned =
                written-IsOwned s.store k p.owned
                  λ q h. let same : some q ≡ some j = sym h ∙ found in ground arith;
          }
  step-IsSafe (invites s input actor i event work bus a owns issued) p =
      let commit : InvitationCommit = record { invitation = i; event = event; work = work } in
      kept_or_written s (commit_invitation publish commit s.store bus) (with_invitation i s.store)
        (check_invitation commit s.store ≡ ok tt) (invitation_cases publish s.store bus commit) p
        λ passed.
          let is = ensured (Issued input) (Invitation.issue input) (issue-Issued input) issued in
          let (new, free) = check-invitation_new commit s.store is.version is.pending passed in
          record {
            sound = issued-IsSound s i p.sound new (free_invitation i s.store free) (
                subst (λ x. Exists x s.store) (owns.organization_id ∙ sym is.organization_id)
                  (p.sound.placed_read actor a));
            owned = invitation-IsOwned s.store i p.owned;
          }
  step-IsSafe (revokes s i j at event work bus a moves) p =
      let commit : InvitationCommit = record { invitation = j; event = event; work = work } in
      kept_or_written s (commit_invitation publish commit s.store bus) (with_invitation j s.store)
        (check_invitation commit s.store ≡ ok tt) (invitation_cases publish s.store bus commit) p
        λ passed.
          let e =
            ensured (InvitationKeeps i) (invitation_step i InvitationStep.revokes at)
              (invitation_step-Keeps i InvitationStep.revokes at) moves in
          let (q, there, version) =
            check-invitation_change commit s.store
              (ground (arith, e.version, p.sound.invitations.read i a)) passed in
          record {
            sound =
                closed-IsSound s i j p.sound a e
                  (invitation_replaced s i j q p.sound a e there version);
            owned = invitation-IsOwned s.store j p.owned;
          }
  step-IsSafe (accepts s i j id m at events work bus a moves added) p =
      let commit : InvitationAcceptanceCommit = record {
        invitation = j;
        membership = m;
        events = events;
        work = work;
      } in
      kept_or_written s (commit_acceptance publish commit s.store bus) (with_acceptance j m s.store)
        (check_acceptance commit s.store ≡ ok tt) (acceptance_cases publish s.store bus commit) p
        λ passed.
          let e =
            ensured (InvitationKeeps i) (invitation_step i InvitationStep.accepts at)
              (invitation_step-Keeps i InvitationStep.accepts at) moves in
          let is = ensured (Added _) (Membership.add _) (add-Added _) added in
          let (q, there, pending, version, new, free) = check-acceptance commit s.store passed in
          accepted-IsSafe s i j m p a e (invitation_replaced s i j q p.sound a e there version) new
            (free_place m s.store free) is.organization_id

  -- From a safe system, any interleaving of commands leads to a safe system.
  pub organizations-IsSafe : {s t : System} → IsSafe s → Reach publish s t → IsSafe t
  organizations-IsSafe safe unmoved = safe
  organizations-IsSafe safe (next r st) = step-IsSafe st (organizations-IsSafe safe r)
