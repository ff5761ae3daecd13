-- ===== src/Organization/History/Changes.antt =====
-- Changes of what was read from the store of src/modules/organization/infra/in-memory.
use n2f_nest.Prelude.{◌≡◌, sym, subst, ◌∙◌, inl, inr, true, false, none, some, ◌∷◌, arith}
use n2f_nest.Prelude.Maps.{get}
use n2f_nest.Shared.Errors.{ok, Ensures}
use n2f_nest.Shared.Dates.{time}
use n2f_nest.Shared.Text.{text_eq}
use n2f_nest.Shared.Ids.{Identifier}
use n2f_nest.Shared.Work.{WorkContext}
use n2f_nest.Shared.Events.{Envelope}
use n2f_nest.Shared.Tables.{Table, Among, read-Among, read-IsTable, Every, Supersedes, current}
use n2f_nest.Organization.Membership
use n2f_nest.Organization.Membership.{Membership, owner, role_of}
use n2f_nest.Organization.Invitation
use n2f_nest.Organization.Invitation.{Invitation, is_pending}
use n2f_nest.Organization.Terms.{MembershipKeeps, InvitationKeeps}
use n2f_nest.Organization.Writers.{with_membership, with_invitation, check_membership}
use n2f_nest.Organization.Writes.{check-membership_change}
use n2f_nest.Organization.History.{
  System, membership_key, membership_version, invitation_key, invitation_version, SamePlace,
  BothPending, Exists, IsSound,
}
use n2f_nest.Organization.History.Sound.{moved, membership-IsSound, invitation-IsSound}

-- What a membership that was added is.
pub record Added (i : Membership.AddMembershipInput) (m : Membership) : Type 0 where
  pub id : m.id ≡ i.id
  pub organization_id : m.organization_id ≡ i.organization_id
  pub identity_id : m.identity_id ≡ i.identity_id
  pub role : role_of i.role ≡ ok m.role
  pub status : m.status ≡ Membership.active
  pub created_at : i.created_at ≡ time m.created_at
  pub updated_at : m.updated_at ≡ m.created_at
  pub revoked_at : m.revoked_at ≡ none
  pub version : m.version ≡ 0

pub add-Added : (i : Membership.AddMembershipInput) → Ensures (Added i) (Membership.add i)
unfolding Membership.add
add-Added i = ground arith

-- What an invitation that was issued is.
pub record Issued (i : Invitation.IssueInvitationInput) (v : Invitation) : Type 0 where
  pub organization_id : v.organization_id ≡ i.organization_id
  pub identity_id : v.identity_id ≡ i.identity_id
  pub pending : is_pending v.status ≡ true
  pub version : v.version ≡ 0

pub issue-Issued : (i : Invitation.IssueInvitationInput) → Ensures (Issued i) (Invitation.issue i)
unfolding Invitation.issue
issue-Issued i = ground arith

-- In a sound system, a change whose checks pass, of a membership that was read before, replaces that very membership.
pub membership_replaced :
    (s : System) (j k : Membership) (event : Envelope) (work : WorkContext)
    → IsSound s
    → Among j s.memberships_read
    → MembershipKeeps j k
    → check_membership (record { membership = k; event = event; work = work }) s.store ≡ ok tt
    → get k.id s.store.memberships ≡ some j
membership_replaced s j k event work p a e passed =
    let saved = p.memberships.read j a in
    let (q, found, version) =
      check-membership_change (record { membership = k; event = event; work = work }) s.store
        (ground (arith, e.version)) passed in
    let there = subst (λ x. get x s.store.memberships ≡ some q) e.id found in
    let same : q ≡ j =
      current membership_key membership_version s.store.memberships s.memberships_read j q
        p.memberships a there (version ∙ e.version) in
    subst (λ x. get k.id s.store.memberships ≡ some x) same found

-- The same of an invitation, whichever writer checked it.
pub invitation_replaced :
    (s : System) (i j q : Invitation)
    → IsSound s
    → Among i s.invitations_read
    → InvitationKeeps i j
    → get j.id s.store.invitations ≡ some q
    → q.version ≡ j.version
    → get j.id s.store.invitations ≡ some i
invitation_replaced s i j q p a e found version =
    let there = subst (λ x. get x s.store.invitations ≡ some q) e.id found in
    let same : q ≡ i =
      current invitation_key invitation_version s.store.invitations s.invitations_read i q
        p.invitations a there (version ∙ e.version) in
    subst (λ x. get j.id s.store.invitations ≡ some x) same found

membership-Supersedes :
    (j k : Membership) (t : Table Membership)
    → get k.id t ≡ some j
    → MembershipKeeps j k
    → Supersedes membership_key membership_version (Membership.saved k) t
unfolding Membership.saved
membership-Supersedes j k t found e = inr (j, found, ground (arith, e.version))

invitation-Supersedes :
    (i j : Invitation) (t : Table Invitation)
    → get j.id t ≡ some i
    → InvitationKeeps i j
    → Supersedes invitation_key invitation_version (Invitation.saved j) t
unfolding Invitation.saved
invitation-Supersedes i j t found e = inr (i, found, ground (arith, e.version))

-- What changed of a membership clashes with none but itself.
changed-free :
    (s : System) (j k : Membership)
    → IsSound s
    → get k.id s.store.memberships ≡ some j
    → MembershipKeeps j k
    → Every (λ i b. SamePlace k b → k.id ≡ i) s.store.memberships
changed-free s j k p found e i b g c = p.alone k.id i j b found g (record {
  organization_id = sym e.organization_id ∙ c.organization_id;
  identity_id = sym e.identity_id ∙ c.identity_id;
})

-- An invitation that is closed clashes with none.
closed-free :
    (s : System) (j : Invitation)
    → is_pending j.status ≡ false
    → Every (λ k b. BothPending j b → j.id ≡ k) s.store.invitations
closed-free s j h k b g c = absurd (cc (h, c.left_pending))

pub changed-IsSound :
    (s : System) (j k : Membership)
    → IsSound s
    → Among j s.memberships_read
    → MembershipKeeps j k
    → get k.id s.store.memberships ≡ some j
    → IsSound (moved s (with_membership k s.store))
changed-IsSound s j k p a e found =
    membership-IsSound s k p (membership-Supersedes j k s.store.memberships found e)
      (changed-free s j k p found e)
      (subst (λ x. Exists x s.store) (sym e.organization_id) (p.placed_read j a))

pub closed-IsSound :
    (s : System) (i j : Invitation)
    → IsSound s
    → Among i s.invitations_read
    → InvitationKeeps i j
    → get j.id s.store.invitations ≡ some i
    → IsSound (moved s (with_invitation j s.store))
closed-IsSound s i j p a e found =
    invitation-IsSound s j p (invitation-Supersedes i j s.store.invitations found e)
      (closed-free s j e.is_closed)
      (subst (λ x. Exists x s.store) (sym e.organization_id) (p.invited_read i a))

-- A new membership, of an identity that has none in an organization that is stored.
pub new-IsSound :
    (s : System) (m : Membership)
    → IsSound s
    → get m.id s.store.memberships ≡ none
    → Every (λ k b. SamePlace m b → m.id ≡ k) s.store.memberships
    → Exists m.organization_id s.store
    → IsSound (moved s (with_membership m s.store))
unfolding Membership.saved
new-IsSound s m p new free there = membership-IsSound s m p (inl new) free there

-- Reading leaves the store, and what was read is there.
pub read_membership-IsSound :
    (s : System) (id : Identifier) (m : Membership)
    → IsSound s
    → get id s.store.memberships ≡ some m
    → IsSound (record s { memberships_read = m ∷ s.memberships_read })
read_membership-IsSound s id m p h = record {
  organizations = p.organizations;
  memberships =
      read-IsTable membership_key membership_version id m s.store.memberships s.memberships_read
        p.memberships h;
  invitations = p.invitations;
  slugs = p.slugs;
  alone = p.alone;
  one_pending = p.one_pending;
  placed = p.placed;
  invited = p.invited;
  placed_read =
      read-Among (λ j. Exists j.organization_id s.store) m s.memberships_read (p.placed id m h)
        p.placed_read;
  invited_read = p.invited_read;
}

pub read_invitation-IsSound :
    (s : System) (id : Identifier) (i : Invitation)
    → IsSound s
    → get id s.store.invitations ≡ some i
    → IsSound (record s { invitations_read = i ∷ s.invitations_read })
read_invitation-IsSound s id i p h = record {
  organizations = p.organizations;
  memberships = p.memberships;
  invitations =
      read-IsTable invitation_key invitation_version id i s.store.invitations s.invitations_read
        p.invitations h;
  slugs = p.slugs;
  alone = p.alone;
  one_pending = p.one_pending;
  placed = p.placed;
  invited = p.invited;
  placed_read = p.placed_read;
  invited_read =
      read-Among (λ j. Exists j.organization_id s.store) i s.invitations_read (p.invited id i h)
        p.invited_read;
}
