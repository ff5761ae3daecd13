-- ===== src/Jobs/Listed.antt =====
-- Which jobs `runningStartedBefore` lists (src/modules/jobs/infra/in-memory/store.ts).
use mathlib.Core.List.{Permᴰ}
use mathlib.Core.List.Permᴰ
use n2f_nest.Prelude.{
  ℕ, ◌≤◌, ◌<◌, ◌≡◌, ◌+◌, refl, sym, subst, Bool, true, not, some, List, [], ◌∷◌, ◌++◌, min, inl,
  inr, arith, Bool-cases, All, length, length-take, length-drop, take, select, drop,
}
use n2f_nest.Prelude.Maps.{values}
use n2f_nest.Prelude.Sort.{
  sort, Sorted, sort-Sorted, sort-perm, Sorted-take, take-before-drop, take-append-drop, All-select,
  All-sort, All-take, All-drop, All-weaken,
}
use n2f_nest.Shared.Dates.{Time, Date, time}
use n2f_nest.Jobs.Job.{Job, running}
use n2f_nest.Jobs.Store.{JobStore}
use n2f_nest.Jobs.Expiry.{is_stale, start_time, running_started_before}

-- A running job that started before the date.
pub record IsStuck (limit : Date) (j : Job) : Type 0 where
  pub status : j.status ≡ running
  pub started : Time
  pub started_at : j.started_at ≡ some started
  pub bound : Time
  pub limit_is : limit ≡ time bound
  pub before : started < bound

-- One job started no later than another.
abbrev pub StartsFirst : Job → Job → Type 0
StartsFirst j k = (t u : Time) → j.started_at ≡ some t → k.started_at ≡ some u → t ≤ u

abbrev pub InOrder : List Job → Type 0
InOrder [] = Unit
InOrder (j ∷ js) = InOrder js × All (StartsFirst j) js

-- The stored jobs are the ones listed, the stuck ones that are left out, and the others, which are not stuck. The ones listed
-- are stuck, in the order of their start, and none left out started before one of them; and as many are listed as there are,
-- up to `n`.
pub record ListsOldest (limit : Date) (n : ℕ) (store : JobStore) (listed : List Job) : Type 0 where
  pub rest : List Job
  pub others : List Job
  pub all_stored : Permᴰ (values store) ((listed ++ rest) ++ others)
  pub listed_stuck : All (IsStuck limit) listed
  pub rest_stuck : All (IsStuck limit) rest
  pub others_not : All (λ j. ¬ IsStuck limit j) others
  pub in_order : InOrder listed
  pub oldest : All (λ j. All (StartsFirst j) rest) listed
  pub at_most : length listed ≡ min n (length listed + length rest)

stale-IsStuck : (limit : Date) (j : Job) → is_stale limit j ≡ true → IsStuck limit j
unfolding is_stale
stale-IsStuck limit j h = ground arith

not_stale-IsStuck : (limit : Date) (j : Job) → not (is_stale limit j) ≡ true → ¬ IsStuck limit j
unfolding is_stale
not_stale-IsStuck limit j h stuck = ground arith

time-StartsFirst : (j k : Job) → start_time j ≤ start_time k → StartsFirst j k
time-StartsFirst j k h t u e f = ground arith

Sorted-InOrder : (js : List Job) → Sorted start_time js → InOrder js
Sorted-InOrder [] s = tt
Sorted-InOrder (j ∷ js) (s, above) = (
  Sorted-InOrder js s,
  All-weaken (λ k. start_time j ≤ start_time k) (time-StartsFirst j) js above,
)

select-split :
    {A : Type 0} (p : A → Bool) (xs : List A) → Permᴰ xs (select p xs ++ select (λ x. not (p x)) xs)
select-split p [] = Permᴰ.nil
select-split p (x ∷ xs) = elim (Bool-cases (p x)) [
  | inl e ↦ rw e (Permᴰ.cons refl (select-split p xs))
  | inr e ↦ rw e (
      Permᴰ.trans (Permᴰ.cons refl (select-split p xs))
        (Permᴰ.symm (Permᴰ.middle x (select p xs) (select (λ y. not (p y)) xs))))
]

-- For any date and limit, the query lists the running jobs that started before the date, oldest
-- first, as many as the limit allows, and leaves out none that started before one it lists.
pub running_started_before-ListsOldest :
    (limit : Date) (n : ℕ) (store : JobStore)
    → ListsOldest limit n store (running_started_before limit n store)
unfolding running_started_before
running_started_before-ListsOldest limit n store =
    let jobs = values store in
    let stale = select (is_stale limit) jobs in
    let sorted = sort start_time stale in
    let split = take-append-drop n sorted in
    let order = sort-Sorted start_time stale in
    let perm : Permᴰ stale (take n sorted ++ drop n sorted) =
      subst (λ l. Permᴰ stale l) (sym split) (sort-perm start_time stale) in
    let stuck =
      All-sort (IsStuck limit) start_time stale
        (All-select (IsStuck limit) (is_stale limit) (stale-IsStuck limit) jobs) in
    record {
      rest = drop n sorted;
      others = select (λ j. not (is_stale limit j)) jobs;
      all_stored =
          Permᴰ.trans (select-split (is_stale limit) jobs)
            (Permᴰ.append_right (select (λ j. not (is_stale limit j)) jobs) perm);
      listed_stuck = All-take (IsStuck limit) n sorted stuck;
      rest_stuck = All-drop (IsStuck limit) n sorted stuck;
      others_not =
          All-select (λ j. ¬ IsStuck limit j) (λ j. not (is_stale limit j))
            (not_stale-IsStuck limit) jobs;
      in_order = Sorted-InOrder (take n sorted) (Sorted-take start_time n sorted order);
      oldest =
          All-weaken (λ j. All (λ k. start_time j ≤ start_time k) (drop n sorted))
            (λ j.
              All-weaken (λ k. start_time j ≤ start_time k) (time-StartsFirst j) (drop n sorted))
            (take n sorted) (take-before-drop start_time n sorted order);
      at_most = omega (arith, length-take n sorted, length-drop n sorted);
    }
