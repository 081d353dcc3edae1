-- ===== src/Numbers.antt =====
-- The numbers that the runtime reads from the text of an input: they are floating point, so their
-- type and the readings that the forms make are a parameter of the model.
use mcpxy.Prelude.{String, Option}

-- `parseInt(s, 10)` and `parseFloat(s)` with the test that the result is a number above 0, and
-- `Number(s)` with the test `Number.isFinite`; `none` where the test fails. Then
-- `parseInt(s, 10) || 1` and `Math.ceil`.
pub record Numbers : Type 1 where
  pub Number : Type 0
  pub positive_int : String → Option Number
  pub positive_float : String → Option Number
  pub finite_number : String → Option Number
  pub int_or_one : String → Number
  pub ceil : Number → Number
