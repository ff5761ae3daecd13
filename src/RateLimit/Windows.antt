-- ===== src/RateLimit/Windows.antt =====
-- How many requests one window of src/platform/ratelimit/in-memory-store.ts lets through.
use native.Mathlib.Nat.{mod-lt}
use n2f_nest.Prelude.{
  ℕ, ◌+◌, ◌-◌, ◌%◌, ◌≤◌, ◌<◌, ◌≡◌, refl, subst, sym, ◌⊎◌, inl, inr, arith, Bool, true, false, ◌&&◌,
  Option, some, List, [], ◌∷◌, leb, if◌then◌else◌, Bool-cases, Option-cases, ◌==◌, All,
}
use n2f_nest.Prelude.Maps.{get, get-set, ◌===◌}
use n2f_nest.Shared.Errors.{Failure, Result, ok, err, Result-cases}
use n2f_nest.Shared.Dates.{Time, Date, not_a_date, time}
use n2f_nest.Shared.Events.{epoch}
use n2f_nest.RateLimit.Store.{
  RateLimitConsumeInput, RateLimitDecision, WindowState, WindowKey, window_key_eq, same_key_iff,
  Windows, max_window_ms, into_window, window_start_of, count_in, is_expired, without_expired,
  swept, consume_at, settled, window_key, checked, consume,
}

abbrev tally : Bool → Result RateLimitDecision → ℕ
tally counts (err e) = 0
tally counts (ok d) = if counts && d.allowed then 1 else 0

-- How many of the requests for the key are allowed, as all of the requests are served in order.
unfoldable pub count_allowed : WindowKey → Windows → List RateLimitConsumeInput → ℕ
count_allowed key windows [] = 0
count_allowed key windows (r ∷ rs) =
    tally (window_key r === key) (consume r windows).0 + count_allowed key (consume r windows).1 rs

-- The request comes within the window of the key that starts at `start`.
abbrev IsWithin' : WindowKey → ℕ → Date → Type 0
IsWithin' key start not_a_date = Unit
IsWithin' key start (time t) = window_start_of key.window_ms t ≡ start

abbrev pub IsWithin : WindowKey → ℕ → RateLimitConsumeInput → Type 0
IsWithin key start r = IsWithin' key start r.now

abbrev state : ℕ → ℕ → WindowState
state start count = record { window_start = start; count = count }

get-without_expired :
    (k : WindowKey) (v : WindowState) (now : Time) (m : Windows)
    → get k m ≡ some v
    → is_expired now v ≡ false
    → get k (without_expired now m) ≡ some v
unfolding get without_expired
get-without_expired k v now [] h live = cc
get-without_expired k v now ((j, w) ∷ m) h live = ground (arith, get-without_expired k v now m)

get-swept :
    (k : WindowKey) (v : WindowState) (now : Time) (m : Windows)
    → get k m ≡ some v
    → is_expired now v ≡ false
    → get k (swept now m) ≡ some v
unfolding swept
get-swept k v now m h live = ground (arith, get-without_expired k v now m)

-- A state of the window that `now` is in has not expired.
live :
    (w start now count : ℕ)
    → 1 ≤ w
    → w ≤ max_window_ms
    → window_start_of w now ≡ start
    → is_expired now (state start count) ≡ false
unfolding window_start_of into_window
live w start now count low high e =
    ground (arith, mod-lt (now + (w - epoch % w)) {m = w} (omega arith))

consume_at-own :
    (key : WindowKey) (start : ℕ) (now : Time) (m : Windows)
    → 1 ≤ key.window_ms
    → key.window_ms ≤ max_window_ms
    → window_start_of key.window_ms now ≡ start
    → (get key (consume_at key now m).1 ≡ some (state start (count_in start (get key m) + 1)))
      × ((consume_at key now m).0.allowed ≡ leb (count_in start (get key m) + 1) key.limit)
unfolding consume_at
consume_at-own key start now m low high e = rw e (
  get-swept key (state start (count_in start (get key m) + 1)) now _
      (ground (
        arith,
        get-set key key (state start (count_in start (get key m) + 1)) m,
        same_key_iff key key,
      ))
      (live key.window_ms start now (count_in start (get key m) + 1) low high e),
  refl,
)

consume_at-other :
    (own key : WindowKey) (v : WindowState) (now : Time) (m : Windows)
    → (own === key) ≡ false
    → get key m ≡ some v
    → is_expired now v ≡ false
    → get key (consume_at own now m).1 ≡ some v
unfolding consume_at
consume_at-other own key v now m other h l =
    get-swept key v now _
      (ground (
        arith,
        get-set own key
            (state (window_start_of own.window_ms now)
              (count_in (window_start_of own.window_ms now) (get own m) + 1))
            m,
      ))
      l

checked-ok :
    (r : RateLimitConsumeInput) (own : WindowKey) (now : Time)
    → checked r ≡ ok (own, now)
    → (own ≡ window_key r) × (r.now ≡ time now)
unfolding checked
checked-ok r own now h = ground arith

served :
    (r : RateLimitConsumeInput) (own : WindowKey) (now : Time) (m : Windows)
    → checked r ≡ ok (own, now)
    → consume r m ≡ settled (consume_at own now m)
unfolding consume
served r own now m h = rw (h, consume) refl

unserved :
    (r : RateLimitConsumeInput) (e : Failure) (m : Windows)
    → checked r ≡ err e
    → consume r m ≡ (err e, m)
unfolding consume
unserved r e m h = rw (h, consume) refl

within :
    (key : WindowKey) (start : ℕ) (r : RateLimitConsumeInput) (now : Time)
    → IsWithin key start r
    → r.now ≡ time now
    → window_start_of key.window_ms now ≡ start
within key start r now w h = subst (IsWithin' key start) h w

abbrev spent : ℕ → WindowKey → Windows → ℕ
spent start key m = count_in start (get key m)

own_step :
    (b : Bool) (allowed : Bool) (limit c rest : ℕ)
    → allowed ≡ leb (c + 1) limit
    → rest ≤ limit - (c + 1)
    → (if b && allowed then 1 else 0) + rest ≤ limit - c
own_step b allowed limit c rest e h = ground arith

other_step :
    (b : Bool) (allowed : Bool) (limit c d rest : ℕ)
    → b ≡ false
    → c ≤ d
    → rest ≤ limit - d
    → (if b && allowed then 1 else 0) + rest ≤ limit - c
other_step b allowed limit c d rest e le h = ground arith

spent_state :
    (start c : ℕ) (o : Option WindowState) → o ≡ some (state start c) → count_in start o ≡ c
spent_state start c o h = ground arith

module _ (key : WindowKey) (start : ℕ) (low : 1 ≤ key.window_ms)
    (high : key.window_ms ≤ max_window_ms) where
  -- Serving another key in the window keeps what the key has spent in it.
  spent-kept :
      (own : WindowKey) (now : Time) (m : Windows)
      → (own === key) ≡ false
      → window_start_of key.window_ms now ≡ start
      → spent start key m ≤ spent start key (consume_at own now m).1
  spent-kept own now m other within_now = elim (Option-cases (get key m)) [
    | inl e ↦ rw e (omega arith)
    | inr (s, e) ↦ elim (Bool-cases (s.window_start == start)) [
      | inl here ↦
          let is_state : get key m ≡ some (state start s.count) = ground arith in
          let kept =
            consume_at-other own key (state start s.count) now m other is_state
              (live key.window_ms start now s.count low high within_now) in
          omega (arith, spent_state start s.count _ is_state, spent_state start s.count _ kept)
      | inr elsewhere ↦ rw (e, elsewhere) (omega arith)
    ]
  ]

  -- Of requests that all come within one window of a key of at most a day, in any order and for any keys, valid or
  -- not, at most as many are allowed for that key as its limit leaves after what it spent in the window.
  pub count_allowed_bounded :
      (m : Windows) (rs : List RateLimitConsumeInput)
      → All (IsWithin key start) rs
      → count_allowed key m rs ≤ key.limit - spent start key m
  unfolding count_allowed
  count_allowed_bounded m [] ws = omega arith
  count_allowed_bounded m (r ∷ rs) (w, ws) = elim (Result-cases (checked r)) [
    | inr (e, bad) ↦ rw (unserved r e m bad) (omega (arith, count_allowed_bounded m rs ws))
    | inl ((own, now), good) ↦
        let (is_own, at) = checked-ok r own now good in
        let within_now = within key start r now w at in
        let rest = count_allowed_bounded (consume_at own now m).1 rs ws in
        rw (served r own now m good) (elim (Bool-cases (own === key)) [
          | inl same ↦
              let is_key : own ≡ key = (same_key_iff own key).0 same in
              let (now_spent, allowed) = consume_at-own key start now m low high within_now in
              own_step (window_key r === key) (consume_at own now m).0.allowed key.limit
                (spent start key m) _
                (subst (λ k. (consume_at k now m).0.allowed ≡ leb (spent start key m + 1) key.limit)
                  (sym is_key) allowed)
                (let after = spent_state start (spent start key m + 1) _ (
                    subst
                      (λ k.
                        get key (consume_at k now m).1 ≡ some (state start (spent start key m + 1)))
                      (sym is_key) now_spent) in
                  omega (arith, after, rest))
          | inr other ↦
              other_step (window_key r === key) (consume_at own now m).0.allowed key.limit
                (spent start key m) (spent start key (consume_at own now m).1) _
                (subst (λ k. (k === key) ≡ false) is_own other)
                (spent-kept own now m other within_now) rest
        ])
  ]

-- What a decision promises of the request at `now`, under its rule.
pub record IsSound (key : WindowKey) (now : Time) (d : RateLimitDecision) : Type 0 where
  pub reset_later : now < d.reset_at
  pub reset_soon : d.reset_at ≤ now + key.window_ms
  pub same_limit : d.limit ≡ key.limit
  pub remaining_fits : d.remaining ≤ key.limit
  pub waits : d.retry_after_ms ≡ (if d.allowed then 0 else d.reset_at - now)
  pub refused_when_spent : (d.allowed ≡ true) ⊎ (d.remaining ≡ 0)

-- A decision resets after now and within one window, leaves no more than the limit, tells to wait until the reset
-- exactly when it refuses, and refuses only when nothing remains.
pub consume_at-IsSound :
    (key : WindowKey) (now : Time) (m : Windows)
    → 1 ≤ key.window_ms
    → IsSound key now (consume_at key now m).0
unfolding consume_at into_window
consume_at-IsSound key now m low = ground (
  arith,
  mod-lt (now + (key.window_ms - epoch % key.window_ms)) {m = key.window_ms} (omega arith),
)
