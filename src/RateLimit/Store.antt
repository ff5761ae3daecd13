-- ===== src/RateLimit/Store.antt =====
-- src/platform/ratelimit/in-memory-store.ts: the process-local store of fixed windows.
use n2f_nest.Prelude.{
  ℕ, ◌+◌, ◌-◌, ◌%◌, ◌≡◌, ◌↔◌, arith, Bool, true, not, ◌&&◌, ◌||◌, Option, none, some, [], ◌∷◌,
  length, leb, ltb, ◌==◌, ==_iff, if◌then◌else◌,
}
use n2f_nest.Prelude.Maps.{Eq, Map, get, set}
use n2f_nest.Shared.Errors.{Kind, Failure, failure, Result, ok, err, refuse, ◌>>◌}
use n2f_nest.Shared.Numbers.{Number, is_safe_integer, at_least, to_nat}
use n2f_nest.Shared.Dates.{Time, Date, not_a_date, time}
use n2f_nest.Shared.Text.{Text, text_beq, text_beq_iff}
use n2f_nest.Shared.Events.{epoch}

pub record RateLimitRule : Type 0 where
  pub limit : Number
  pub window_ms : Number

pub record RateLimitConsumeInput : Type 0 where
  pub key : Text
  pub rule : RateLimitRule
  pub now : Date

-- `reset_at` is the time of the decision's `resetAt`.
pub record RateLimitDecision : Type 0 where
  pub allowed : Bool
  pub limit : ℕ
  pub remaining : ℕ
  pub reset_at : Time
  pub retry_after_ms : ℕ

abbrev pub max_key_length : ℕ
max_key_length = 256

abbrev pub max_limit : ℕ
max_limit = 1000000

abbrev pub max_window_ms : ℕ
max_window_ms = 86400000

-- WindowState. `window_start` is `windowStartMs + MAX_WINDOW_MS`, counted as times are: the start of
-- a window is at most that much before the earliest date.
pub record WindowState : Type 0 where
  pub window_start : ℕ
  pub count : ℕ

-- The key of the map, the template `${key}:${windowMs}:${limit}`: two numbers in decimal digits after
-- the last two colons, so that the three parts can be read back from it.
pub record WindowKey : Type 0 where
  pub key : Text
  pub window_ms : ℕ
  pub limit : ℕ

abbrev pub same_key : WindowKey → WindowKey → Bool
same_key a b = text_beq a.key b.key && a.window_ms == b.window_ms && a.limit == b.limit

pub same_key_iff : (a b : WindowKey) → (same_key a b ≡ true) ↔ (a ≡ b)
same_key_iff a b =
    ground (arith, text_beq_iff a.key b.key, ==_iff a.window_ms b.window_ms, ==_iff a.limit b.limit)

instance abbrev pub window_key_eq : Eq WindowKey
window_key_eq = record { beq = same_key; beq_iff = same_key_iff }

abbrev pub Windows : Type 0
Windows = Map WindowKey WindowState

abbrev pub invalid_configuration : Failure
invalid_configuration = failure Kind.invalid "rate_limit.invalid_configuration"

unfoldable pub invalid_key : Text → Bool
invalid_key key = length key == 0 || ltb max_key_length (length key)

unfoldable pub invalid_rule : RateLimitRule → Bool
invalid_rule rule =
    not (is_safe_integer rule.limit)
    || not (at_least 1 rule.limit)
    || at_least (max_limit + 1) rule.limit
    || not (is_safe_integer rule.window_ms)
    || not (at_least 1000 rule.window_ms)
    || at_least (max_window_ms + 1) rule.window_ms

-- `nowMs - windowStartMs`: how far `now` is into its window, as windows are counted from the epoch.
unfoldable pub into_window : ℕ → Time → ℕ
into_window window_ms now = (now + (window_ms - epoch % window_ms)) % window_ms

-- `Math.floor(nowMs / windowMs) * windowMs`, as a `window_start`.
unfoldable pub window_start_of : ℕ → Time → ℕ
window_start_of window_ms now = now + max_window_ms - into_window window_ms now

-- `previous?.windowStartMs === windowStartMs ? previous.count : 0`
abbrev pub count_in : ℕ → Option WindowState → ℕ
count_in start none = 0
count_in start (some s) = if s.window_start == start then s.count else 0

-- `state.windowStartMs + MAX_WINDOW_MS < nowMs`
abbrev pub is_expired : Time → WindowState → Bool
is_expired now s = ltb s.window_start now

unfoldable pub without_expired : Time → Windows → Windows
without_expired now [] = []
without_expired now ((k, s) ∷ rest) =
    let kept = without_expired now rest in if is_expired now s then kept else (k, s) ∷ kept

unfoldable pub swept : Time → Windows → Windows
swept now windows = if ltb 10000 (length windows) then without_expired now windows else windows

abbrev pub decide : ℕ → ℕ → ℕ → Time → RateLimitDecision
decide limit window_ms count now =
    let reset_at = now + (window_ms - into_window window_ms now) in
    let allowed = leb count limit in
    record {
      allowed = allowed;
      limit = limit;
      remaining = limit - count;
      reset_at = reset_at;
      retry_after_ms = if allowed then 0 else reset_at - now;
    }

-- `consume`, once the input is checked.
unfoldable pub consume_at : WindowKey → Time → Windows → RateLimitDecision × Windows
consume_at key now windows =
    let start = window_start_of key.window_ms now in
    let count = count_in start (get key windows) + 1 in
    (
      decide key.limit key.window_ms count now,
      swept now (set key (record { window_start = start; count = count }) windows),
    )

abbrev pub settled : RateLimitDecision × Windows → Result RateLimitDecision × Windows
settled (d, windows) = (ok d, windows)

abbrev pub window_key : RateLimitConsumeInput → WindowKey
window_key i = record {
  key = i.key;
  window_ms = to_nat i.rule.window_ms;
  limit = to_nat i.rule.limit;
}

-- The checks, and the key and the time that pass them.
unfoldable pub checked : RateLimitConsumeInput → Result (WindowKey × Time)
checked i = do
  refuse (invalid_key i.key) invalid_configuration
  refuse (invalid_rule i.rule) invalid_configuration
  elim i.now [ not_a_date ↦ err invalid_configuration | time t ↦ ok (window_key i, t) ]

-- `InMemoryRateLimitStore.consume`
unfoldable pub consume : RateLimitConsumeInput → Windows → Result RateLimitDecision × Windows
consume i windows = elim (checked i) [
  | err e ↦ (err e, windows)
  | ok (key, now) ↦ settled (consume_at key now windows)
]
