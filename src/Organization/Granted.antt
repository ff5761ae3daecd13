-- ===== src/Organization/Granted.antt =====
-- Who has access to an organization (src/integration/organization-access.ts).
use n2f_nest.Prelude.{
  ◌≡◌, refl, sym, ap, ap₂, subst, ◌∙◌, ◌↔◌, inl, inr, Option, none, some, arith, find, Option-cases,
}
use n2f_nest.Prelude.Maps.{get}
use n2f_nest.Shared.Errors.{Result, ok}
use n2f_nest.Shared.Text.{Text, text_eq, text_beq_iff}
use n2f_nest.Shared.Ids.{Identifier}
use n2f_nest.Shared.Searches.{Among-select, select-Among}
use n2f_nest.Organization.Organization
use n2f_nest.Organization.Organization.{Organization}
use n2f_nest.Organization.Membership
use n2f_nest.Organization.Membership.{Membership, MembershipRole}
use n2f_nest.Organization.Store.{
  OrganizationStore, OrganizationMembershipView, is_active_of, memberships_for_identity,
  list_for_identity,
}
use n2f_nest.Organization.History.{System, IsSound}
use n2f_nest.Organization.Access.{
  OrganizationAccessView, is_view_of, access_of, get_organization_membership, find_access,
}
use n2f_nest.Organization.Views.{found-Shows, missing_view}

-- The answer to a membership that gives access.
abbrev pub access : Identifier → Identifier → MembershipRole → OrganizationAccessView
access organization identity role = record {
  organization_id = organization;
  identity_id = identity;
  role = role;
}

-- The organization is active, and the identity has an active membership in it.
pub record HasAccess (s : OrganizationStore) (organization identity : Identifier) (o : Organization)
    (m : Membership) : Type 0 where
  pub key : Identifier
  pub held : get key s.memberships ≡ some m
  pub stored : get organization s.organizations ≡ some o
  pub organization_active : o.status ≡ Organization.active
  pub membership_active : m.status ≡ Membership.active
  pub organization_id : m.organization_id ≡ organization
  pub identity_id : m.identity_id ≡ identity

module _ (s : System) (sound : IsSound s) (organization identity : Identifier) where
  -- A view that is found, of an active membership in an active organization, is of a membership that gives access.
  found-HasAccess :
      (v : OrganizationMembershipView)
      → find (is_view_of organization) (list_for_identity identity s.store) ≡ some v
      → v.organization.status ≡ Organization.active
      → HasAccess s.store organization identity v.organization v.membership
  unfolding list_for_identity memberships_for_identity
  found-HasAccess v h active =
      let shown = found-Shows _ s.store organization v h in
      let (key, held, chosen) =
        Among-select (is_active_of identity) s.store.memberships v.membership
          sound.memberships.distinct shown.among in
      let own : v.organization.id ≡ v.membership.organization_id =
        sound.organizations.keyed v.membership.organization_id v.organization shown.stored in
      let asked = (text_beq_iff v.organization.id organization).0 shown.chosen in
      let place = sym own ∙ asked in
      record {
        key = key;
        held = held;
        stored = subst (λ x. get x s.store.organizations ≡ some v.organization) place shown.stored;
        organization_active = active;
        membership_active = ground arith;
        organization_id = place;
        identity_id = (text_beq_iff v.membership.identity_id identity).0 (ground arith);
      }

  -- Two memberships that give access are one.
  only_one :
      (o p : Organization) (m n : Membership)
      → HasAccess s.store organization identity o m
      → HasAccess s.store organization identity p n
      → (o ≡ p) × (m ≡ n)
  only_one o p m n a b =
      let one : some o ≡ some p = sym a.stored ∙ b.stored in
      let key = sound.alone a.key b.key m n a.held b.held (record {
        organization_id = a.organization_id ∙ sym b.organization_id;
        identity_id = a.identity_id ∙ sym b.identity_id;
      }) in
      let held : some m ≡ some n =
        sym (subst (λ x. get x s.store.memberships ≡ some m) key a.held) ∙ b.held in
      (ground arith, ground arith)

  -- What a membership that gives access is answered with.
  HasAccess-found :
      (o : Organization) (m : Membership)
      → HasAccess s.store organization identity o m
      → (v : OrganizationMembershipView) × (find
            (is_view_of organization)
            (list_for_identity identity s.store)
          ≡ some v)
        × (v.organization ≡ o)
        × (v.membership ≡ m)
  unfolding list_for_identity memberships_for_identity
  HasAccess-found o m a =
      let among =
        select-Among (is_active_of identity) s.store.memberships a.key m a.held (
          ground
            (arith, a.membership_active, text_beq_iff m.identity_id identity, a.identity_id)) in
      let stored : get m.organization_id s.store.organizations ≡ some o =
        subst (λ x. get x s.store.organizations ≡ some o) (sym a.organization_id) a.stored in
      elim (Option-cases (find (is_view_of organization) (list_for_identity identity s.store))) [
        | inl none_found ↦
            let missed =
              missing_view _ s.store organization m o none_found among stored
                (ground (arith, a.organization_active)) in
            let own = sound.organizations.keyed organization o a.stored in
            absurd (ground (arith, text_beq_iff o.id organization, own, missed))
        | inr (v, found) ↦
            let shown = found-Shows _ s.store organization v found in
            let own =
              sound.organizations.keyed v.membership.organization_id v.organization shown.stored in
            let asked = (text_beq_iff v.organization.id organization).0 shown.chosen in
            let there =
              subst (λ x. get x s.store.organizations ≡ some v.organization) (sym own ∙ asked)
                shown.stored in
            let same : some v.organization ≡ some o = sym there ∙ a.stored in
            let active : v.organization.status ≡ Organization.active =
              ground (arith, a.organization_active) in
            let (one, other) =
              only_one v.organization o v.membership m (found-HasAccess v found active) a in
            (v, found, one, other)
      ]

  abbrev found_view : Option OrganizationMembershipView
  found_view = find (is_view_of organization) (list_for_identity identity s.store)

  find_access-known :
      (find_current : Text → Result Identifier) (token : Text)
      → find_current token ≡ ok identity
      → find_access find_current token organization s.store ≡ ok (access_of found_view)
  unfolding find_access get_organization_membership
  find_access-known find_current token known = rw known refl

  access_of-some :
      (v : OrganizationMembershipView) (answer : OrganizationAccessView)
      → found_view ≡ some v
      → access_of (some v) ≡ some answer
      → (o : Organization) × (m : Membership) × HasAccess s.store organization identity o m
        × (answer ≡ access organization identity m.role)
  unfolding access_of
  access_of-some v answer found h =
      let active : v.organization.status ≡ Organization.active = ground arith in
      let has = found-HasAccess v found active in
      let shown = sound.organizations.keyed organization v.organization has.stored in
      let named : some (access v.organization.id v.membership.identity_id v.membership.role)
          ≡ some answer =
        ground arith in
      let e : answer ≡ access v.organization.id v.membership.identity_id v.membership.role =
        ground arith in
      (
        v.organization,
        v.membership,
        has,
        e ∙ ap₂ (λ x y. access x y v.membership.role) shown has.identity_id,
      )

  granted-HasAccess :
      (answer : OrganizationAccessView)
      → access_of found_view ≡ some answer
      → (o : Organization) × (m : Membership) × HasAccess s.store organization identity o m
        × (answer ≡ access organization identity m.role)
  granted-HasAccess answer h = elim (Option-cases found_view) [
    | inl e ↦
        let g : access_of none ≡ some answer = sym (ap access_of e) ∙ h in
        absurd (unfold access_of in cc g)
    | inr (v, e) ↦ access_of-some v answer e (sym (ap access_of e) ∙ h)
  ]

  HasAccess-granted :
      (o : Organization) (m : Membership)
      → HasAccess s.store organization identity o m
      → access_of found_view ≡ some (access organization identity m.role)
  unfolding access_of
  HasAccess-granted o m a =
      let (v, found, one, other) = HasAccess-found o m a in
      let own = sound.organizations.keyed organization o a.stored in
      ground
        (arith, found, one, other, own, a.organization_active, a.membership_active, a.identity_id)

  -- In a sound store, a session whose identity is known has access to an organization exactly when the organization is active and
  -- the identity has an active membership in it; the answer then names the two and the membership's role.
  pub find_access-HasAccess :
      (find_current : Text → Result Identifier) (token : Text) (answer : OrganizationAccessView)
      → find_current token ≡ ok identity
      → (find_access find_current token organization s.store ≡ ok (some answer)) ↔ (
          (o : Organization) × (m : Membership) × HasAccess s.store organization identity o m
          × (answer ≡ access organization identity m.role))
  find_access-HasAccess find_current token answer known =
      let e = find_access-known find_current token known in
      (
        λ h.
            let g : ok (access_of found_view) ≡ ok (some answer) = sym e ∙ h in
            granted-HasAccess answer (ground arith),
        λ p. let (o, m, has, is) = p in e ∙ ap ok (HasAccess-granted o m has ∙ ap some (sym is)),
      )
