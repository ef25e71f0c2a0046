-- ===== src/Buford/Push/Service.antt =====
-- buford/push/service.go: one push, and the error that a response stands for.
use Prim.Native.String.{len}
use gaurun.Prelude.{
  ℕ, zero, suc, ℤ, pos, negsuc, ◌/◌, String, ◌++ˢ◌, List, [], ◌∷◌, Option, none, some, lookup, ltb,
  eq_ℤ, ◌==◌, if◌then◌else◌,
}
use gaurun.Http.{Result, ok, err}
use gaurun.Buford.Errors.{
  PushError, GoError, plain, api, sentinel, new, payload_too_large, map_error_reason,
}
use gaurun.Buford.Push.{HttpRequest, Reply, Outside}
use gaurun.Buford.Push.Header.{Headers, set}
use gaurun.Buford.Token.{Token}

abbrev pub development : String
development = "https://api.development.push.apple.com"

abbrev pub production : String
production = "https://api.push.apple.com"

-- 4KB at most
abbrev pub max_payload : ℕ
max_payload = 4096

-- An `(id, error)` pair: the id on success.
pub data Pushed : Type 0 where
  sent : String → Pushed
  failed : GoError → Pushed

-- `n / 1000` of an int64: Go's division cuts off towards zero.
neg : ℕ → ℤ
neg zero = pos zero
neg (suc n) = negsuc n

unfoldable pub to_seconds : ℤ → ℤ
unfolding neg
to_seconds (pos ms) = pos (ms / 1000)
to_seconds (negsuc ms) = neg (suc ms / 1000)

unfoldable pub error_of : ℕ → String × ℤ → PushError
error_of status_code (reason, timestamp) = record {
  reason = map_error_reason reason;
  status = status_code;
  timestamp = if eq_ℤ timestamp (pos 0) then none else some (to_seconds timestamp);
}

unfoldable pub header_value : String → List (String × String) → String
header_value name headers = elim (lookup name headers) [ none ↦ "" | some v ↦ v ]

module _ {E Key : Type 0} (o : Outside E Key) where
  -- `parseErrorResponse`
  unfoldable pub parse_error_response : String → ℕ → GoError
  parse_error_response body status_code = elim (o.decode_reason body) [
    | err text ↦ plain (new text)
    | ok response ↦ api (error_of status_code response)
  ]

  unfoldable pub read_reply : Result Reply → Pushed
  read_reply (err text) = failed (plain (new text))
  read_reply (ok reply) =
      if reply.status_code == 200
      then sent (header_value "apns-id" reply.headers)
      else failed (parse_error_response reply.body reply.status_code)

  unfoldable pub device_url : (host device_token : String) → String
  device_url host device_token = (host ++ˢ "/3/device/") ++ˢ device_token

  -- The request that `Push` sends, and what it does to the token and the world.
  unfoldable pub prepare :
      (host device_token : String)
      → Option Headers
      → String
      → Option (Token Key)
      → E
      → HttpRequest × Option (Token Key) × E
  prepare host device_token headers payload t e =
      let (h, t', e') = set o headers t e (("Content-Type", "application/json") ∷ []) in
      (
        record { method = "POST"; url = device_url host device_token; headers = h; body = payload },
        t',
        e',
      )

  unfoldable pub deliver : HttpRequest × Option (Token Key) × E → Pushed × Option (Token Key) × E
  deliver (request, t, e) = let (reply, e') = o.round_trip request e in (read_reply reply, t, e')

  -- `(*Service).Push`
  unfoldable pub push :
      (host device_token : String)
      → Option Headers
      → String
      → Option (Token Key)
      → E
      → Pushed × Option (Token Key) × E
  push host device_token headers payload t e =
      if ltb max_payload (len payload)
      then (
        failed
            (api (record { reason = sentinel payload_too_large; status = 413; timestamp = none })),
        t,
        e,
      )
      else elim (o.check_url (device_url host device_token)) [
        | some text ↦ (failed (plain (new text)), t, e)
        | none ↦ deliver (prepare host device_token headers payload t e)
      ]
