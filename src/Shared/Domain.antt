-- ===== src/Shared/Domain.antt =====
-- Helpers that the domain files (src/modules/*/domain) each declare for themselves: `validDate`
-- with the caller's failure, and the tests of nullable times.
use n2f_nest.Prelude.{Bool, false, not, Option, none, some}
use n2f_nest.Shared.Errors.{Failure, Result, ok, err}
use n2f_nest.Shared.Dates.{Time, Date, not_a_date, time, valid_date, to_time}

-- `if (!validDate(value)) return err(e)`, and the time of the date.
abbrev pub checked_time : Date → Failure → Result Time
checked_time not_a_date e = err e
checked_time (time t) e = ok t

-- `value !== null && !validDate(value)`
abbrev pub invalid_nullable : Option Date → Bool
invalid_nullable none = false
invalid_nullable (some d) = not (valid_date d)

abbrev pub nullable_time : Option Date → Option Time
nullable_time none = none
nullable_time (some d) = some (to_time d)

abbrev pub date_of : Option Time → Option Date
date_of none = none
date_of (some t) = some (time t)
