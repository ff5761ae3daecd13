-- ===== src/Organization/History/Untouched.antt =====
-- What a commit to the store of src/modules/organization/infra/in-memory leaves as it was.
use n2f_nest.Prelude.{◌≡◌, sym, subst, ap, ◌∙◌, ◌⊎◌, inl, inr, Bool, true, false, none, some, arith}
use n2f_nest.Prelude.Maps.{get}
use n2f_nest.Shared.Errors.{Result, is_ok}
use n2f_nest.Shared.Text.{text_eq}
use n2f_nest.Shared.Ids.{Identifier}
use n2f_nest.Shared.Tables.{Table}
use n2f_nest.Organization.Store.{OrganizationStore}

-- A key that holds `m` is not one that holds nothing, or something else.
pub apart_new :
    {A : Type 0} (i id : Identifier) (m : A) (t : Table A)
    → get id t ≡ some m
    → get i t ≡ none
    → ¬ (i ≡ id)
apart_new i id m t h new e =
    let there = subst (λ x. get x t ≡ some m) (sym e) h in absurd (cc (there, new))

pub apart_old :
    {A : Type 0} (P : A → Bool) (i id : Identifier) (m j : A) (t : Table A)
    → get id t ≡ some m
    → get i t ≡ some j
    → P m ≡ true
    → P j ≡ false
    → ¬ (i ≡ id)
apart_old P i id m j t h old p q e =
    let there : some m ≡ some j = sym (subst (λ x. get x t ≡ some m) (sym e) h) ∙ old in
    let same : m ≡ j = ground arith in absurd (cc (p, q, ap P same))

module _ {B : Type 0} where
  pub by_cases :
      (P : OrganizationStore → Type 0) (s : OrganizationStore)
      (after : Result (Unit {0}) × OrganizationStore × B) (written : OrganizationStore)
      (passed : Type 0)
      → ((is_ok after.0 ≡ false) × (after.1 ≡ s))
        ⊎ ((is_ok after.0 ≡ true) × (after.1 ≡ written) × passed)
      → P s
      → (passed → P written)
      → P after.1
  by_cases P s after written passed (inl (failed, e)) p f = subst P (sym e) p
  by_cases P s after written passed (inr (done, e, h)) p f = subst P (sym e) (f h)
