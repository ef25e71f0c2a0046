-- ===== src/Gcm/Client.antt =====
-- gcm/client.go. One buffer serves all requests of a `Send`: what the HTTP client leaves unread of
-- a body stands before the next message.
use gaurun.Prelude.{
  ℕ, String, ◌++ˢ◌, List, [], ◌∷◌, ◌++◌, Option, none, some, is_empty, show_ℕ, ◌==◌, if◌then◌else◌,
}
use gaurun.Http.{Result, ok, err}
use gaurun.Buford.Push.{HttpRequest, Reply}
use gaurun.Gcm.Message.{Message, WrappedMessage, Response, validate}

-- What the code takes from outside, over the state `E` of the world: the credentials `C` from the
-- key file (`google.CredentialsFromJSON`) and their access token, the JSON encoder of a message and
-- decoder of a response, the check of a URL by `http.NewRequest`, `url.Parse` (an error text, or
-- none), and `http.Client.Do` with what it has left unread of the request's body.
pub record Outside (E C : Type 0) : Type 0 where
  pub credentials : String → Result C
  pub access_token : C → E → Result String × E
  pub encode : WrappedMessage → Result String
  pub check_url : String → Option String
  pub parse_url : String → Option String
  pub round_trip : HttpRequest → E → Result Reply × String × E
  pub decode : String → Result Response

pub record Client : Type 0 where
  pub api_key : String
  pub url : String

-- `NewClient`, of which the HTTP client is left out. `quote` is `%q`.
unfoldable pub new_client :
    (parse_url : String → Option String) (quote : String → String) (url api_key : String)
    → Result Client
new_client parse_url quote url api_key =
    if is_empty url
    then err "missing FCM endpoint url"
    else if is_empty api_key
    then err "missing API Key"
    else elim (parse_url url) [
      | some e ↦ err ((("failed to parse URL " ++ˢ quote url) ++ˢ ": ") ++ˢ e)
      | none ↦ ok (record { api_key = api_key; url = url })
    ]

unfoldable pub make_fcm_send_endpoint : String → String
make_fcm_send_endpoint project_id =
    ("https://fcm.googleapis.com/v1/projects/" ++ˢ project_id) ++ˢ "/messages:send"

-- The message for one token.
unfoldable pub for_token : Message → String → WrappedMessage
for_token m token = record {
  message = record {
    token = token;
    collapse_key = m.collapse_key;
    notification = record { title = m.notification.title; body = m.notification.body };
    payload = m.payload;
    delay_while_idle = m.delay_while_idle;
    time_to_live = m.time_to_live;
    android = record {
      notification = record {
        click_action = m.notification.click_action;
        tag = m.notification.tag;
      };
      priority = m.priority;
    };
    restricted_package_name = m.restricted_package_name;
    dry_run = m.dry_run;
  };
}

-- What `Send` gives: the first response, an error, or a fault at `responses[0]`.
pub data Sent : Type 0 where
  response : Response → Sent
  failed : String → Sent
  fault : Sent

unfoldable pub first_of_all : List Response → Sent
first_of_all [] = fault
first_of_all (r ∷ rs) = response r

unfoldable pub status_error : ℕ → String → String
status_error code status = (("invalid status code " ++ˢ show_ℕ code) ++ˢ ": ") ++ˢ status

abbrev pub ids : Option (List String) → List String
ids none = []
ids (some xs) = xs

module _ {E C : Type 0} (o : Outside E C) where
  -- `getAcsessToken`
  unfoldable pub get_access_token : String → E → Result String × E
  get_access_token json e = elim (o.credentials json) [
    | err text ↦ (err ("error getting credentials: " ++ˢ text), e)
    | ok creds ↦ wrap (o.access_token creds e)
  ]
    where
      wrap : Result String × E → Result String × E
      wrap (err text, e') = (err ("error getting token: " ++ˢ text), e')
      wrap (ok token, e') = (ok token, e')

  unfoldable pub request : Client → (access_token body : String) → HttpRequest
  request c access_token body = record {
    method = "POST";
    url = c.url;
    headers =
        ("Authorization", "Bearer " ++ˢ access_token) ∷ ("Content-Type", "application/json") ∷ [];
    body = body;
  }

  unfoldable pub read_reply : Result Reply → Result Response
  read_reply (err text) = err text
  read_reply (ok reply) =
      if reply.status_code == 200
      then o.decode reply.body
      else err (status_error reply.status_code reply.status)

  -- One round of the loop: the response, what is left in the buffer, and the world.
  unfoldable pub send_one :
      Client
      → (access_token : String) → Message
      → (token buf : String) → E
      → Result Response × String × E
  send_one c access_token m token buf e = elim (o.encode (for_token m token)) [
    | err text ↦ (err text, buf, e)
    | ok json ↦ elim (o.check_url c.url) [
      | some text ↦ (err text, buf ++ˢ json, e)
      | none ↦
          let (reply, unread, e') = o.round_trip (request c access_token (buf ++ˢ json)) e in
          (read_reply reply, unread, e')
    ]
  ]

  -- The loop over the tokens; `responses` holds those so far.
  unfoldable pub send_loop :
      Client
      → (access_token : String) → Message
      → List String
      → (buf : String) → E
      → List Response
      → Sent × E
  send_loop c access_token m [] buf e responses = (first_of_all responses, e)
  send_loop c access_token m (token ∷ tokens) buf e responses =
      let (result, buf', e') = send_one c access_token m token buf e in
      elim result [
        | err text ↦ (failed text, e')
        | ok r ↦ send_loop c access_token m tokens buf' e' (responses ++ r ∷ [])
      ]

  unfoldable pub send_valid : Client → Message → String → E → Sent × E
  send_valid c m json e =
      let (token, e') = get_access_token json e in
      elim token [
        | err text ↦ (failed text, e')
        | ok t ↦ send_loop c t m (ids m.registration_ids) "" e' []
      ]

  -- `Send`
  unfoldable pub send : Client → Message → String → E → Sent × E
  send c m json e = elim (validate (some m)) [
    | some text ↦ (failed text, e)
    | none ↦ send_valid c m json e
  ]
