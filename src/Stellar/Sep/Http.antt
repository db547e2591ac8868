-- ===== src/Stellar/Sep/Http.antt =====
-- A request of packages/stellar/src/sep, and the test of its answer.
use mix_match_onchain.Base.{String, none, [], if◌then◌else◌}
use mix_match_onchain.Exec.{lift, throw}
use mix_match_onchain.Error.{Error}
use mix_match_onchain.Env.{Env}
use mix_match_onchain.Env.Http.{Request, Response, is_ok, get}
use mix_match_onchain.Env.Calls.{Call}
use mix_match_onchain.Stellar.Net.{Net, ask}

abbrev pub get_request : String → Request
get_request url = record { method = get; url = url; authorization = none; body = [] }

module _ (env : Env) where
  -- `await fetch(...)`
  unfoldable pub fetch : Request → Net Response
  fetch request = ask (Call.fetch request) (λ t. env.web.fetch t request)

  -- The text of an answer that is ok; `refusal` is the error of one that is not.
  unfoldable pub ok_text : (Response → Error) → Response → Net String
  ok_text refusal response = if is_ok response then lift response.text else throw (refusal response)
