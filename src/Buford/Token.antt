-- ===== src/Buford/Token.antt =====
-- buford/token/token.go: the provider token and its cached signature. The clock and the signer are
-- parameters over the state `E` of the world outside; a time is in nanoseconds since 1970. The
-- mutex makes `GenerateBearerIfExpired` one step.
pub mod Laws
use gaurun.Prelude.{
  ℕ, String, Bool, true, false, Option, none, some, ◌+◌, ◌/◌, ◌*◌, ◌^◌, leb, if◌then◌else◌,
}
use gaurun.Http.{Result, ok, err}

abbrev pub token_timeout : ℕ
token_timeout = 3000

-- `Key` stands for `*ecdsa.PrivateKey`; a nil key is `none`.
pub record Token (Key : Type 0) : Type 0 where
  pub auth_key : Option Key
  pub key_id : String
  pub team_id : String
  pub issued_at : ℕ
  pub bearer : String

-- `Time.Unix()`
abbrev pub unix : ℕ → ℕ
unix t = t / 10 ^ 9

-- `AuthKeyFromBytes`. The PEM decoder and the parser of PKCS #8 are parameters; the parser gives a
-- key of some kind, of which `as_ecdsa` takes the ECDSA ones.
module _ {Block AnyKey Key : Type 0} (pem_decode : String → Option Block)
    (parse_pkcs8 : Block → Result AnyKey) (as_ecdsa : AnyKey → Option Key) where
  as_auth_key : Option Key → Result Key
  as_auth_key none = err "token: AuthKey must be of type ecdsa.PrivateKey"
  as_auth_key (some key) = ok key

  unfoldable pub auth_key_from_bytes : String → Result Key
  unfolding as_auth_key
  auth_key_from_bytes bytes = elim (pem_decode bytes) [
    | none ↦ err "token: AuthKey must be a valid .p8 PEM file"
    | some block ↦ elim (parse_pkcs8 block) [ err e ↦ err e | ok key ↦ as_auth_key (as_ecdsa key) ]
  ]

  -- `AuthKeyFromFile`, over `ioutil.ReadFile`
  unfoldable pub auth_key_from_file : (read_file : String → Result String) → String → Result Key
  auth_key_from_file read_file filename = elim (read_file filename) [
    | err e ↦ err e
    | ok bytes ↦ auth_key_from_bytes bytes
  ]

module _ {E Key : Type 0} (now : E → ℕ × E)
    (sign : Key → (key_id team_id : String) → (issued_at : ℕ) → E → Result String × E) where
  -- `Expired`: the clock is read.
  unfoldable pub expired : Token Key → E → Bool × E
  expired t e = let (time, e') = now e in (leb (t.issued_at + token_timeout) (unix time), e')

  store : Token Key → ℕ → Result String × E → Result Bool × Token Key × E
  store t issued_at (err text, e) = (err text, t, e)
  store t issued_at (ok bearer, e) =
      (ok true, record t { issued_at = issued_at; bearer = bearer }, e)

  generate_with : Token Key → Option Key → E → Result Bool × Token Key × E
  unfolding store
  generate_with t none e = (err "token: AuthKey was nil", t, e)
  generate_with t (some key) e =
      let (time, e') = now e in store t (unix time) (sign key t.key_id t.team_id (unix time) e')

  -- `Generate`
  unfoldable pub generate : Token Key → E → Result Bool × Token Key × E
  unfolding generate_with
  generate t e = generate_with t t.auth_key e

  -- `GenerateBearerIfExpired`: an error of `Generate` is dropped.
  unfoldable pub generate_bearer_if_expired : Token Key → E → String × Token Key × E
  unfolding generate expired
  generate_bearer_if_expired t e =
      let (stale, e') = expired t e in
      let (_, t', e'') = (if stale then generate t e' else (ok false, t, e')) in
      (t'.bearer, t', e'')
