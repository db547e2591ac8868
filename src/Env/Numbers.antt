-- ===== src/Env/Numbers.antt =====
-- JavaScript's `Number(value)`, as far as the validators look at it.
use mix_match_onchain.Base.{ℕ}

-- An integer below zero or not, or no integer.
pub data JsNumber : Type 0 where
  negative : JsNumber
  natural : ℕ → JsNumber
  no_integer : JsNumber
