-- ===== src/Shared/Dates.antt =====
-- JavaScript dates. A `Date` is `Invalid Date`, whose time is NaN, or a number of milliseconds.
-- Times are counted from the earliest `Date`, 8.64e15 ms before the epoch, so that all of them are
-- natural numbers: the code compares, subtracts and shifts times, and none of this sees the origin.
use n2f_nest.Prelude.{ℕ, Bool, true, false, ltb, leb}

-- `date.getTime()` of a valid date.
abbrev pub Time : Type 0
Time = ℕ

pub data Date : Type 0 where
  not_a_date : Date
  time : Time → Date

-- `validDate` of every domain file: `Number.isFinite(value.getTime())`.
abbrev pub valid_date : Date → Bool
valid_date not_a_date = false
valid_date (time t) = true

-- `a.getTime() < b.getTime()`; a comparison with NaN is false.
abbrev pub before : Date → Date → Bool
before not_a_date b = false
before (time a) not_a_date = false
before (time a) (time b) = ltb a b

-- `a.getTime() <= b.getTime()`
abbrev pub until : Date → Date → Bool
until not_a_date b = false
until (time a) not_a_date = false
until (time a) (time b) = leb a b

-- The time of a date that passed `valid_date`.
abbrev pub to_time : Date → Time
to_time not_a_date = 0
to_time (time t) = t
