-- ===== src/RateLimit/Examples.antt =====
-- A key with a limit of two requests in a minute.
use n2f_nest.Prelude.{◌≡◌, ◌≤◌, refl, List, [], ◌∷◌, arith}
use n2f_nest.Prelude.Maps.{get, set}
use n2f_nest.Shared.Numbers.{nat}
use n2f_nest.Shared.Dates.{Time, time}
use n2f_nest.Shared.Text.{codes}
use n2f_nest.RateLimit.Store.{
  RateLimitConsumeInput, WindowKey, into_window, window_start_of, swept, consume_at, checked,
  consume, invalid_key, invalid_rule,
}
use n2f_nest.RateLimit.Policies.{
  Asked, Verdict, consume_policies, AllAllow, consume_policies-AllAllow,
}
use n2f_nest.RateLimit.Windows.{count_allowed, count_allowed_bounded, IsSound, consume_at-IsSound}

abbrev at : Time → RateLimitConsumeInput
at t = record {
  key = codes "login:1";
  rule = record { limit = nat 2; window_ms = nat 60000 };
  now = time t;
}

abbrev key : WindowKey
key = record { key = codes "login:1"; window_ms = 60000; limit = 2 }

abbrev requests : List RateLimitConsumeInput
requests = at 60001 ∷ at 60002 ∷ at 60003 ∷ []

count_allowed_bounded_example : count_allowed key [] requests ≤ 2
unfolding window_start_of into_window get
count_allowed_bounded_example =
    count_allowed_bounded key (window_start_of 60000 60001) (omega arith) (omega arith) [] requests
      (refl, (refl, (refl, tt)))

two_allowed : count_allowed key [] requests ≡ 2
unfolding count_allowed window_start_of into_window get consume checked consume_at swept invalid_key
    invalid_rule set
two_allowed = refl

consume_at-IsSound_example : IsSound key 60001 (consume_at key 60001 []).0
consume_at-IsSound_example = consume_at-IsSound key 60001 [] (omega arith)

abbrev login : Asked
login = record {
  name = codes "login";
  key = codes "1";
  rule = record { limit = nat 2; window_ms = nat 60000 };
  now = time 60001;
}

abbrev verdict : Verdict
verdict = record { policy = codes "login"; decision = (consume_at key 60001 []).0 }

consume_policies-AllAllow_example : AllAllow verdict.decision.remaining (login ∷ []) []
unfolding consume_policies consume checked consume_at invalid_key invalid_rule get
consume_policies-AllAllow_example = consume_policies-AllAllow (login ∷ []) [] verdict refl refl
