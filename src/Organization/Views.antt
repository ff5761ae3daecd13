-- ===== src/Organization/Views.antt =====
-- Searches of the views that src/modules/organization/infra/in-memory/reader.ts lists.
use n2f_nest.Prelude.{
  ◌≡◌, sym, ap, subst, ◌∙◌, inl, inr, true, false, none, some, List, [], ◌∷◌, arith, find,
  Option-cases, Bool-cases, if◌then◌else◌,
}
use n2f_nest.Prelude.Maps.{get}
use n2f_nest.Shared.Text.{text_eq}
use n2f_nest.Shared.Ids.{Identifier}
use n2f_nest.Shared.Tables.{Among, head, tail, none-Among}
use n2f_nest.Organization.Organization
use n2f_nest.Organization.Organization.{Organization}
use n2f_nest.Organization.Membership.{Membership}
use n2f_nest.Organization.Store.{OrganizationStore, OrganizationMembershipView, views_of}
use n2f_nest.Organization.Access.{is_view_of}

abbrev pub view : Organization → Membership → OrganizationMembershipView
view o m = record { organization = o; membership = m }

-- A view of one of the memberships, whose organization is stored and not archived.
pub record Shows (ms : List Membership) (s : OrganizationStore) (organization : Identifier)
    (v : OrganizationMembershipView) : Type 0 where
  pub among : Among v.membership ms
  pub stored : get v.membership.organization_id s.organizations ≡ some v.organization
  pub chosen : is_view_of organization v ≡ true

Shows-tail :
    (m : Membership) (ms : List Membership) (s : OrganizationStore) (organization : Identifier)
    (v : OrganizationMembershipView)
    → Shows ms s organization v
    → Shows (m ∷ ms) s organization v
Shows-tail m ms s organization v h = record {
  among = tail h.among;
  stored = h.stored;
  chosen = h.chosen;
}

module _ (m : Membership) (ms : List Membership) (s : OrganizationStore) where
  views_of-missing :
      get m.organization_id s.organizations ≡ none → views_of (m ∷ ms) s ≡ views_of ms s
  unfolding views_of
  views_of-missing e = ground arith

  views_of-archived :
      (o : Organization)
      → get m.organization_id s.organizations ≡ some o
      → Organization.is_archived o.status ≡ true
      → views_of (m ∷ ms) s ≡ views_of ms s
  unfolding views_of
  views_of-archived o e archived = ground arith

  views_of-live :
      (o : Organization)
      → get m.organization_id s.organizations ≡ some o
      → Organization.is_archived o.status ≡ false
      → views_of (m ∷ ms) s ≡ (view o m ∷ views_of ms s)
  unfolding views_of
  views_of-live o e live = ground arith

-- The views of the first membership: none, or one of an organization that is not archived.
data FirstView (m : Membership) (ms : List Membership) (s : OrganizationStore) : Type 0 where
  no_view : views_of (m ∷ ms) s ≡ views_of ms s → FirstView m ms s
  one_view :
      (o : Organization)
      → get m.organization_id s.organizations ≡ some o
      → views_of (m ∷ ms) s ≡ (view o m ∷ views_of ms s)
      → FirstView m ms s

first_view : (m : Membership) (ms : List Membership) (s : OrganizationStore) → FirstView m ms s
first_view m ms s = elim (Option-cases (get m.organization_id s.organizations)) [
  | inl e ↦ no_view (views_of-missing m ms s e)
  | inr (o, e) ↦ elim (Bool-cases (Organization.is_archived o.status)) [
    | inl archived ↦ no_view (views_of-archived m ms s o e archived)
    | inr live ↦ one_view o e (views_of-live m ms s o e live)
  ]
]

pub found-Shows :
    (ms : List Membership) (s : OrganizationStore) (organization : Identifier)
    (v : OrganizationMembershipView)
    → find (is_view_of organization) (views_of ms s) ≡ some v
    → Shows ms s organization v
found-Shows [] s organization v h = absurd (unfold views_of in cc)
found-Shows (m ∷ ms) s organization v h = elim (first_view m ms s) [
  | no_view e ↦
      Shows-tail m ms s organization v
        (found-Shows ms s organization v (sym (ap (find (is_view_of organization)) e) ∙ h))
  | one_view o stored e ↦
      let g : (if is_view_of organization (view o m)
            then some (view o m)
            else find (is_view_of organization) (views_of ms s))
          ≡ some v =
        sym (ap (find (is_view_of organization)) e) ∙ h in
      elim (Bool-cases (is_view_of organization (view o m))) [
        | inl hit ↦
            let same : some (view o m) ≡ some v = rw hit at g in
            let e1 : view o m ≡ v = ground arith in
            subst (Shows (m ∷ ms) s organization) e1
              (record { among = head; stored = stored; chosen = hit })
        | inr miss ↦
            Shows-tail m ms s organization v (found-Shows ms s organization v (rw miss at g))
      ]
]

rest_none :
    (m : Membership) (ms : List Membership) (s : OrganizationStore) (organization : Identifier)
    → find (is_view_of organization) (views_of (m ∷ ms) s) ≡ none
    → find (is_view_of organization) (views_of ms s) ≡ none
rest_none m ms s organization h = elim (first_view m ms s) [
  | no_view e ↦ sym (ap (find (is_view_of organization)) e) ∙ h
  | one_view o stored e ↦
      let g : (if is_view_of organization (view o m)
            then some (view o m)
            else find (is_view_of organization) (views_of ms s))
          ≡ none =
        sym (ap (find (is_view_of organization)) e) ∙ h in
      ground arith
]

-- If no view is found, no organization of the memberships is the one asked for, unless it is archived.
pub missing_view :
    (ms : List Membership) (s : OrganizationStore) (organization : Identifier) (m : Membership)
    (o : Organization)
    → find (is_view_of organization) (views_of ms s) ≡ none
    → Among m ms
    → get m.organization_id s.organizations ≡ some o
    → Organization.is_archived o.status ≡ false
    → is_view_of organization (view o m) ≡ false
missing_view [] s organization m o h a g live = absurd (none-Among m a)
missing_view (n ∷ ms) s organization m o h head g live =
    let both : (if is_view_of organization (view o m)
          then some (view o m)
          else find (is_view_of organization) (views_of ms s))
        ≡ none =
      sym (ap (find (is_view_of organization)) (views_of-live m ms s o g live)) ∙ h in
    ground arith
missing_view (n ∷ ms) s organization m o h (tail a) g live =
    missing_view ms s organization m o (rest_none n ms s organization h) a g live
