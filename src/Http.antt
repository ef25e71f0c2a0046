-- ===== src/Http.antt =====
-- What the handlers and the clients share: a response with its JSON message, and results that carry
-- a value or the text of an error.
use gaurun.Version.{server_header}
use gaurun.Prelude.{ℕ, String, List, [], ◌∷◌, ◌≡◌, refl, ◌⊎◌, inl, inr}

-- `sendResponse(w, msg, code)` of gaurun/notification.go: the message is the body's only field.
pub record Response : Type 0 where
  pub message : String
  pub code : ℕ

abbrev pub response : String → ℕ → Response
response msg code = record { message = msg; code = code }

-- A pair `(value, error)` of which one is set.
pub data Result {ℓ} (A : Type ℓ) : Type ℓ where
  ok : A → Result A
  err : String → Result A

pub Result-cases {ℓ} :
    {A : Type ℓ} (r : Result A) → ((a : A) × (r ≡ ok a)) ⊎ ((e : String) × (r ≡ err e))
Result-cases (ok a) = inl (a, refl)
Result-cases (err e) = inr (e, refl)

-- What a handler has written to a client.
pub record Written : Type 0 where
  pub code : ℕ
  pub headers : List (String × String)
  pub body : String

body_or_fallback : Result String → String
body_or_fallback (ok json) = json
body_or_fallback (err text) = "{\"message\":\"Response-body could not be created\"}"

-- `sendResponse`, with the JSON encoder of the message as a parameter
unfoldable pub send_response : (encode : String → Result String) → Response → Written
unfolding body_or_fallback
send_response encode r = record {
  code = r.code;
  headers = ("Content-Type", "application/json; charset=utf-8") ∷ ("Server", server_header) ∷ [];
  body = body_or_fallback (encode r.message);
}
