-- ===== src/Organization/Lifecycle.antt =====
-- The invariants of an organization, a membership and an invitation
-- (src/modules/organization/domain), and their storage rows.
use n2f_nest.Prelude.{ℕ, ◌≤◌, ◌≡◌, refl, ap₂, true, some, [], ◌∷◌, arith, length, every}
use n2f_nest.Shared.Errors.{Result, ok, Ensures}
use n2f_nest.Shared.Numbers.{nat, max_safe_integer, is_stored_version}
use n2f_nest.Shared.Dates.{Date, time}
use n2f_nest.Shared.Text.{Text, text_eq, lower_unit, to_lower_case, trim}
use n2f_nest.Shared.Trimmed.{trim-trim, is_solid, trim-solid}
use n2f_nest.Shared.Values.{Value, string}
use n2f_nest.Organization.Organization
use n2f_nest.Organization.Organization.{
  Organization, RestoreOrganizationInput, is_named, is_slug_char, is_slug, name_of, slug_of, rename,
  suspend, reactivate, archive,
}

-- Trimmed, and within its length.
pub record IsName (s : Text) : Type 0 where
  pub trimmed : trim s ≡ s
  pub sized : is_named s ≡ true

pub record IsValid (o : Organization) : Type 0 where
  pub name_valid : IsName o.name
  pub slug_valid : is_slug o.slug ≡ true
  pub monotonic : o.created_at ≤ o.updated_at

trim-IsName : (s : Text) → is_named (trim s) ≡ true → IsName (trim s)
trim-IsName s h = record { trimmed = trim-trim s; sized = h }

name_of-IsName : (v : Value) → Ensures IsName (name_of v)
unfolding name_of
name_of-IsName (string s) = ground (arith, trim-IsName s)
name_of-IsName _ = ground arith

slug_of-valid : (v : Value) → Ensures (λ s. is_slug s ≡ true) (slug_of v)
unfolding slug_of
slug_of-valid (string s) = ground arith
slug_of-valid _ = ground arith

lower_unit-slug : (c : ℕ) → is_slug_char c ≡ true → lower_unit c ≡ c
lower_unit-slug c h = ground arith

solid-slug : (c : ℕ) → is_slug_char c ≡ true → is_solid c ≡ true
solid-slug c h = ground arith

lower-slug : (s : Text) → every is_slug_char s ≡ true → to_lower_case s ≡ s
lower-slug [] h = refl
lower-slug (c ∷ cs) h =
    ap₂ (λ x y. x ∷ y) (lower_unit-slug c (ground arith)) (lower-slug cs (ground arith))

every-solid : (s : Text) → every is_slug_char s ≡ true → every is_solid s ≡ true
every-solid [] h = refl
every-solid (c ∷ cs) h = ground (arith, solid-slug c, every-solid cs)

is_slug-every : (s : Text) → is_slug s ≡ true → every is_slug_char s ≡ true
unfolding is_slug
is_slug-every [] h = refl
is_slug-every (c ∷ cs) h = ground arith

is_slug-length : (s : Text) → is_slug s ≡ true → length s ≤ 63
unfolding is_slug
is_slug-length [] h = ground arith
is_slug-length (c ∷ cs) h = ground arith

name_of-name : (s : Text) → IsName s → name_of (string s) ≡ ok s
unfolding name_of
name_of-name s h = rw (h.trimmed, h.sized) refl

slug_of-slug : (s : Text) → is_slug s ≡ true → slug_of (string s) ≡ ok s
unfolding slug_of
slug_of-slug s h =
    let units = is_slug-every s h in
    rw (trim-solid s (every-solid s units), lower-slug s units, h)
      (ground (arith, is_slug-length s h))

-- An organization that is created is valid.
pub created-IsValid :
    (i : Organization.CreateOrganizationInput) → Ensures IsValid (Organization.create i)
unfolding Organization.create
created-IsValid i = ground (arith, name_of-IsName i.name, slug_of-valid i.slug)

-- Its transitions.
pub data Step : Type 0 where
  renames : Value → Step
  suspends reactivates archives : Step

unfoldable pub take_step : Organization → Step → Date → Result Organization
take_step o (renames v) at = rename o v at
take_step o suspends at = suspend o at
take_step o reactivates at = reactivate o at
take_step o archives at = archive o at

-- A transition of a valid organization gives a valid organization, if it gives one.
pub organization_step-IsValid :
    (o : Organization) (s : Step) (at : Date) → IsValid o → Ensures IsValid (take_step o s at)
unfolding take_step rename suspend reactivate archive Organization.transition_time
organization_step-IsValid o (renames n) at v = ground (arith, name_of-IsName n)
organization_step-IsValid o _ at v = ground arith

-- The row that storage keeps of an organization.
pub row : Organization → RestoreOrganizationInput
row o = record {
  id = o.id;
  name = string o.name;
  slug = string o.slug;
  status = some o.status;
  created_at = time o.created_at;
  updated_at = time o.updated_at;
  version = nat o.version;
}

-- A valid organization at a stored version is restored from its row as it was.
pub restore-organization_row :
    (o : Organization)
    → IsValid o
    → 1 ≤ o.version
    → o.version ≤ max_safe_integer
    → Organization.restore (row o) ≡ ok o
unfolding Organization.restore row is_stored_version
restore-organization_row o v low high =
    ground (arith, name_of-name o.name v.name_valid, slug_of-slug o.slug v.slug_valid)

-- Whatever a row holds, what is restored from it is valid.
pub restored_organization-IsValid :
    (i : RestoreOrganizationInput) → Ensures IsValid (Organization.restore i)
unfolding Organization.restore
restored_organization-IsValid i = ground (arith, name_of-IsName i.name, slug_of-valid i.slug)
