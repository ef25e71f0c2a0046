-- ===== src/Sample.antt =====
-- samples/client.go: the request that the sample client makes, and the fields of a request by their
-- JSON tags, as this client writes them and gaurun/notification.go reads them.
pub mod Accepted
use gaurun.Prelude.{
  ℕ, ℤ, pos, String, ◌++ˢ◌, Bool, true, false, not, ◌&&◌, List, [], ◌∷◌, ◌++◌, Option, none, some,
  is_empty, lookup, if◌then◌else◌,
}
use gaurun.Http.{Result, ok, err}
use gaurun.Notification as Server

-- `RequestGaurunNotification` of the client
pub record Notification : Type 0 where
  pub tokens : List String
  pub platform : ℤ
  pub message : String
  pub collapse_key : String
  pub delay_while_idle : Bool
  pub time_to_live : ℤ
  pub title : String
  pub subtitle : String
  pub badge : ℤ
  pub category : String
  pub sound : String
  pub content_available : Bool
  pub expiry : ℤ

zero_notification : Notification
zero_notification = record {
  tokens = [];
  platform = pos 0;
  message = "";
  collapse_key = "";
  delay_while_idle = false;
  time_to_live = pos 0;
  title = "";
  subtitle = "";
  badge = pos 0;
  category = "";
  sound = "";
  content_available = false;
  expiry = pos 0;
}

for_ios : String → Notification
unfolding zero_notification
for_ios token = record zero_notification {
  tokens = token ∷ [];
  platform = pos 1;
  message = "Hello, iOS!";
  title = "Greeting";
  subtitle = "greeting";
  badge = pos 1;
  category = "category1";
  sound = "default";
  content_available = true;
}

for_android : String → Notification
unfolding zero_notification
for_android token = record zero_notification {
  tokens = token ∷ [];
  platform = pos 2;
  message = "Hello, Android!";
}

-- The notifications for the tokens that are given.
unfoldable pub build : (ios_token android_token : String) → List Notification
unfolding for_ios for_android
build ios_token android_token =
    (if not (is_empty ios_token) then for_ios ios_token ∷ [] else [])
    ++ (if not (is_empty android_token) then for_android android_token ∷ [] else [])

pub data Json : Type 0 where
  texts : List String → Json
  str : String → Json
  int : ℤ → Json
  bool : Bool → Json
  extends : List Server.ExtendJson → Json

-- The tags of the client's struct.
unfoldable pub to_fields : Notification → List (String × Json)
to_fields n =
    ("token", texts n.tokens)
    ∷ ("platform", int n.platform)
    ∷ ("message", str n.message)
    ∷ ("collapse_key", str n.collapse_key)
    ∷ ("data_while_idle", bool n.delay_while_idle)
    ∷ ("time_to_live", int n.time_to_live)
    ∷ ("title", str n.title)
    ∷ ("subtitle", str n.subtitle)
    ∷ ("badge", int n.badge)
    ∷ ("category", str n.category)
    ∷ ("sound", str n.sound)
    ∷ ("content_available", bool n.content_available)
    ∷ ("expiry", int n.expiry)
    ∷ []

abbrev texts_of : Option Json → List String
texts_of (some (texts xs)) = xs
texts_of _ = []

abbrev text_of : Option Json → String
text_of (some (str s)) = s
text_of _ = ""

abbrev int_of : Option Json → ℤ
int_of (some (int n)) = n
int_of _ = pos 0

abbrev bool_of : Option Json → Bool
bool_of (some (bool b)) = b
bool_of _ = false

abbrev extends_of : Option Json → List Server.ExtendJson
extends_of (some (extends xs)) = xs
extends_of _ = []

abbrev id_of : Option Json → ℕ
id_of (some (int (pos n))) = n
id_of _ = 0

-- The tags of the server's struct, for fields of its types.
unfoldable pub of_fields : List (String × Json) → Server.Notification
of_fields fields = record {
  tokens = texts_of (lookup "token" fields);
  platform = int_of (lookup "platform" fields);
  message = text_of (lookup "message" fields);
  identifier = text_of (lookup "identifier" fields);
  collapse_key = text_of (lookup "collapse_key" fields);
  delay_while_idle = bool_of (lookup "delay_while_idle" fields);
  time_to_live = int_of (lookup "time_to_live" fields);
  priority = text_of (lookup "priority" fields);
  click_action = text_of (lookup "click_action" fields);
  tag = text_of (lookup "tag" fields);
  title = text_of (lookup "title" fields);
  subtitle = text_of (lookup "subtitle" fields);
  push_type = text_of (lookup "push_type" fields);
  badge = int_of (lookup "badge" fields);
  category = text_of (lookup "category" fields);
  sound = text_of (lookup "sound" fields);
  content_available = bool_of (lookup "content_available" fields);
  mutable_content = bool_of (lookup "mutable_content" fields);
  expiry = int_of (lookup "expiry" fields);
  retry = int_of (lookup "retry" fields);
  extend = extends_of (lookup "extend" fields);
  id = id_of (lookup "seq_id" fields);
}

-- What the client prints and how it ends.
pub data Effect : Type 0 where
  print_defaults : Effect
  print : String → Effect
  log_fatal : String → Effect

-- What `http.Post` answers: the status and the body, as `ioutil.ReadAll` reads it.
pub record Reply : Type 0 where
  pub status : String
  pub body : Result String

printed : Result Reply → List Effect
printed (err text) = log_fatal text ∷ []
printed (ok reply) = print ("status: " ++ˢ reply.status) ∷ elim reply.body [
  | err text ↦ log_fatal text ∷ []
  | ok body ↦ print ("response body:" ++ˢ body) ∷ []
]

-- `main`, with its three flags; `json.Marshal` and `http.Post` are parameters.
unfoldable pub main :
    (marshal : List Notification → Result String)
    → (post : (url content_type body : String) → Result Reply)
    → (host ios_token android_token : String) → List Effect
unfolding printed
main marshal post host ios_token android_token =
    if is_empty ios_token && is_empty android_token
    then print_defaults ∷ []
    else elim (marshal (build ios_token android_token)) [
      | err text ↦ log_fatal text ∷ []
      | ok body ↦ printed (post (("http://" ++ˢ host) ++ˢ "/push") "application/json" body)
    ]
