-- ===== src/Buford/Push.antt =====
-- buford/push/: the headers of a request to Apple's service, the request, and its error responses.
pub mod Header
pub mod Service
pub mod DeviceToken
pub mod Tokens
pub mod Queue
pub mod Setup
pub mod Laws
use gaurun.Prelude.{ℕ, ℤ, String, List, Option}
use gaurun.Http.{Result}

pub record HttpRequest : Type 0 where
  pub method : String
  pub url : String
  pub headers : List (String × String)
  pub body : String

pub record Reply : Type 0 where
  pub status_code : ℕ
  pub status : String
  pub headers : List (String × String)
  pub body : String

-- What the code takes from outside, over the state `E` of the world: the clock (nanoseconds since
-- 1970), the signer of provider tokens, the check of a URL by `http.NewRequest` (an error text, or
-- none), `http.Client.Do`, and the JSON decoder of an error body into its reason and timestamp.
pub record Outside (E Key : Type 0) : Type 0 where
  pub now : E → ℕ × E
  pub sign : Key → (key_id team_id : String) → (issued_at : ℕ) → E → Result String × E
  pub check_url : String → Option String
  pub round_trip : HttpRequest → E → Result Reply × E
  pub decode_reason : String → Result (String × ℤ)
