-- ===== src/Shared/Work.antt =====
-- src/shared/provenance, as far as the writers see it: the operation that a work context names,
-- and the comparison of two contexts in src/shared/events/provenance.ts.
use text.Mathlib.Text.{◌==◌ as str_eq}
use n2f_nest.Prelude.{Bool, ◌&&◌, String}
use n2f_nest.Shared.Text.{Text, text_beq}
use n2f_nest.Shared.Ids.{Identifier}

-- `work.snapshot()`; `context` is the JSON text of the fields that are only compared (correlation,
-- attribution, causation, origin, depth and replay).
pub record WorkContext : Type 0 where
  pub work_id : Identifier
  pub operation : String
  pub context : Text

-- `comparable(a) === comparable(b)`
abbrev pub same_work : WorkContext → WorkContext → Bool
same_work a b =
    text_beq a.work_id b.work_id && str_eq a.operation b.operation && text_beq a.context b.context
