-- ===== src/Shared/Values.antt =====
-- Values of type `unknown`, as they come from callers: the cases that the backend's tests tell
-- apart. `other` is a boolean, an array, a function or a symbol, which each of those tests refuses.
use n2f_nest.Prelude.{Option, none, some, if◌then◌else◌}
use n2f_nest.Prelude.Maps.{◌===◌}
use n2f_nest.Shared.Numbers.{Number}
use n2f_nest.Shared.Text.{Text, text_eq}

mutual
  pub data Value : Type 0 where
    undefined null other : Value
    number : Number → Value
    string : Text → Value
    object : Fields → Value

  -- The own properties of an object.
  pub data Fields : Type 0 where
    end : Fields
    field : Text → Value → Fields → Fields

-- `input.key` of an object that has its own property `key`; `none` if it has none.
abbrev pub own : Text → Fields → Option Value
own k end = none
own k (field j v fs) = if j === k then some v else own k fs
