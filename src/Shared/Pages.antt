-- ===== src/Shared/Pages.antt =====
-- The order of keyset positions is strict and total (src/shared/pagination/index.ts).
use n2f_nest.Prelude.{
  ◌≡◌, refl, ap₂, inl, inr, true, false, ◌&&◌, ◌||◌, [], ◌∷◌, ltb, ◌==◌, arith, Bool-cases,
}
use n2f_nest.Prelude.Ranked.{IsLater}
use n2f_nest.Shared.Text.{Text}
use n2f_nest.Shared.Pagination.{After, text_lt, compare_keyset, is_later}

text_lt_irrefl : (a : Text) → text_lt a a ≡ false
text_lt_irrefl [] = refl
text_lt_irrefl (c ∷ cs) = ground (arith, text_lt_irrefl cs)

text_lt_trans : (a b c : Text) → text_lt a b ≡ true → text_lt b c ≡ true → text_lt a c ≡ true
text_lt_trans [] [] c h k = cc
text_lt_trans [] (y ∷ ys) [] h k = cc
text_lt_trans [] (y ∷ ys) (z ∷ zs) h k = refl
text_lt_trans (x ∷ xs) [] c h k = cc
text_lt_trans (x ∷ xs) (y ∷ ys) [] h k = cc
text_lt_trans (x ∷ xs) (y ∷ ys) (z ∷ zs) h k = ground (arith, text_lt_trans xs ys zs)

text_lt_connected : (a b : Text) → text_lt a b ≡ false → text_lt b a ≡ false → a ≡ b
text_lt_connected [] [] h k = refl
text_lt_connected [] (y ∷ ys) h k = cc
text_lt_connected (x ∷ xs) [] h k = cc
text_lt_connected (x ∷ xs) (y ∷ ys) h k = ground (arith, text_lt_connected xs ys)

text_lt_asym : (a b : Text) → text_lt a b ≡ true → text_lt b a ≡ false
text_lt_asym a b h = elim (Bool-cases (text_lt b a)) [
  | inl k ↦ absurd (cc (text_lt_trans a b a h k, text_lt_irrefl a))
  | inr k ↦ k
]

-- What `is_later` says.
is_later_eq :
    (l r : After) → is_later l r ≡ (ltb r.at l.at || ((r.at == l.at) && text_lt r.id l.id))
unfolding is_later compare_keyset
is_later_eq l r = ground (arith, text_lt_asym l.id r.id, text_lt_asym r.id l.id)

After-eq : (l r : After) → l.at ≡ r.at → l.id ≡ r.id → l ≡ r
After-eq l r t i = ap₂ (λ t i. record { at = t; id = i }) t i

pub is_later-IsLater : IsLater is_later
is_later-IsLater = record {
  irreflexive = λ x. ground (arith, is_later_eq x x, text_lt_irrefl x.id);
  transitive = λ x y z h k.
      ground
        (arith, is_later_eq x y, is_later_eq y z, is_later_eq x z, text_lt_trans z.id y.id x.id);
  connected = λ x y h k.
      ground (arith, is_later_eq x y, is_later_eq y x, text_lt_connected x.id y.id, After-eq x y);
}
