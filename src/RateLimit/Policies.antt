-- ===== src/RateLimit/Policies.antt =====
-- src/platform/ratelimit/rate-limit.interceptor.ts: a request is charged to each of its policies.
use n2f_nest.Prelude.{
  ℕ, ◌≤◌, ◌≡◌, inl, inr, arith, Bool, true, Option, none, some, List, [], ◌∷◌, ◌++◌, ltb,
  if◌then◌else◌, Bool-cases, subst,
}
use n2f_nest.Shared.Errors.{Result, ok, err}
use n2f_nest.Shared.Dates.{Date}
use n2f_nest.Shared.Text.{Text, codes}
use n2f_nest.RateLimit.Store.{
  RateLimitRule, RateLimitConsumeInput, RateLimitDecision, Windows, consume,
}

-- A policy as a request meets it: its name, `policy.key(request)`, its rule, and the clock when the
-- limiter is asked.
pub record Asked : Type 0 where
  pub name : Text
  pub key : Text
  pub rule : RateLimitRule
  pub now : Date

pub record Verdict : Type 0 where
  pub policy : Text
  pub decision : RateLimitDecision

abbrev pub input_of : Asked → RateLimitConsumeInput
input_of p = record { key = p.name ++ codes ":" ++ p.key; rule = p.rule; now = p.now }

abbrev pub tighter : Verdict → Option Verdict → Verdict
tighter current none = current
tighter current (some tightest) =
    if ltb current.decision.remaining tightest.decision.remaining then current else tightest

-- What follows the answer of one policy, where `rest` charges the others.
abbrev pub charged :
    Text
    → (Option Verdict → Windows → Result (Option Verdict) × Windows)
    → Option Verdict
    → Result RateLimitDecision × Windows
    → Result (Option Verdict) × Windows
charged name rest tightest (err e, windows) = (err e, windows)
charged name rest tightest (ok d, windows) =
    if d.allowed
    then rest (some (tighter (record { policy = name; decision = d }) tightest)) windows
    else (ok (some (record { policy = name; decision = d })), windows)

-- The loop of `#consume`, with the tightest verdict so far; `tightest!` is the option.
unfoldable pub consume_policies :
    List Asked → Option Verdict → Windows → Result (Option Verdict) × Windows
consume_policies [] tightest windows = (ok tightest, windows)
consume_policies (p ∷ ps) tightest windows =
    charged p.name (consume_policies ps) tightest (consume (input_of p) windows)

abbrev Allows : ℕ → Result RateLimitDecision → Type 0
Allows n (err e) = ⊥
Allows n (ok d) = (d.allowed ≡ true) × (n ≤ d.remaining)

-- Each policy, asked in turn, allows the request, with no less than `n` remaining.
pub AllAllow : ℕ → List Asked → Windows → Type 0
AllAllow n [] windows = Unit
AllAllow n (p ∷ ps) windows =
    Allows n (consume (input_of p) windows).0 × AllAllow n ps (consume (input_of p) windows).1

abbrev NotAbove : ℕ → Option Verdict → Type 0
NotAbove n none = Unit
NotAbove n (some v) = n ≤ v.decision.remaining

charged-Allows :
    (name : Text) (ps : List Asked) (tightest : Option Verdict)
    (r : Result RateLimitDecision × Windows) (v : Verdict)
    → ((t : Option Verdict) (w : Windows)
        → (consume_policies ps t w).0 ≡ ok (some v)
        → NotAbove v.decision.remaining t × AllAllow v.decision.remaining ps w)
    → (charged name (consume_policies ps) tightest r).0 ≡ ok (some v)
    → v.decision.allowed ≡ true
    → NotAbove v.decision.remaining tightest
      × (Allows v.decision.remaining r.0 × AllAllow v.decision.remaining ps r.1)
charged-Allows name ps tightest (err e, w) v rest h a = cc
charged-Allows name ps tightest (ok d, w) v rest h a = elim (Bool-cases d.allowed) [
  | inl e ↦
      let (below, all) = rest (some (tighter current tightest)) w (subst chosen e h) in
      (kept tightest below, ((e, new tightest below), all))
  | inr e ↦ let k : ok (some current) ≡ ok (some v) = subst chosen e h in absurd (ground arith)
]
  where
    current : Verdict
    current = record { policy = name; decision = d }

    chosen : Bool → Type 0
    chosen b =
        (if b
          then consume_policies ps (some (tighter current tightest)) w
          else (ok (some current), w)).0
        ≡ ok (some v)

    kept :
        (t : Option Verdict)
        → v.decision.remaining ≤ (tighter current t).decision.remaining
        → NotAbove v.decision.remaining t
    kept none b = tt
    kept (some t) b = ground arith

    new :
        (t : Option Verdict)
        → v.decision.remaining ≤ (tighter current t).decision.remaining
        → v.decision.remaining ≤ d.remaining
    new none b = b
    new (some t) b = ground arith

tightest-AllAllow :
    (ps : List Asked) (tightest : Option Verdict) (windows : Windows) (v : Verdict)
    → (consume_policies ps tightest windows).0 ≡ ok (some v)
    → v.decision.allowed ≡ true
    → NotAbove v.decision.remaining tightest × AllAllow v.decision.remaining ps windows
unfolding consume_policies AllAllow
tightest-AllAllow [] tightest windows v h a = (ground arith, tt)
tightest-AllAllow (p ∷ ps) tightest windows v h a =
    charged-Allows p.name ps tightest (consume (input_of p) windows) v
      (λ t w g. tightest-AllAllow ps t w v g a) h a

-- If the verdict on a request allows it, then each of its policies, asked in turn, allowed it, and none has less
-- remaining than the verdict reports.
pub consume_policies-AllAllow :
    (ps : List Asked) (windows : Windows) (v : Verdict)
    → (consume_policies ps none windows).0 ≡ ok (some v)
    → v.decision.allowed ≡ true
    → AllAllow v.decision.remaining ps windows
consume_policies-AllAllow ps windows v h a = (tightest-AllAllow ps none windows v h a).1
