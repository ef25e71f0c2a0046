-- ===== src/Tests/Samples.antt =====
-- Concrete configurations, notifications and environments.
use gaurun.Prelude.{ℕ, ℤ, pos, String, false, List, [], ◌∷◌, Option, none}
use gaurun.Http.{Result, ok}
use gaurun.Conf.{ConfToml, build_default_conf}
use gaurun.Notification.{Notification}
use gaurun.Buford.Payload.{Value}
use gaurun.Buford.Push.{Outside}
use gaurun.Stat.{Stat}
use gaurun.Pusher.{World}

-- The defaults of a machine with 4 processors.
abbrev pub conf : ConfToml
conf = build_default_conf 4

abbrev pub notification : ℤ → List String → Notification
notification platform tokens = record {
  tokens = tokens;
  platform = platform;
  message = "hello";
  identifier = "";
  collapse_key = "";
  delay_while_idle = false;
  time_to_live = pos 0;
  priority = "";
  click_action = "";
  tag = "";
  title = "";
  subtitle = "";
  push_type = "";
  badge = pos 0;
  category = "";
  sound = "";
  content_available = false;
  mutable_content = false;
  expiry = pos 0;
  retry = pos 0;
  extend = [];
  id = 0;
}

-- One to each platform, and one that is rejected.
abbrev pub batch : List Notification
batch =
    notification (pos 1) ("a" ∷ "b" ∷ [])
    ∷ notification (pos 3) ("c" ∷ [])
    ∷ notification (pos 2) ("d" ∷ [])
    ∷ []

-- A service that answers every push with 503, in a world that counts the requests.
abbrev pub unavailable : Outside ℕ (Unit {0})
unavailable = record {
  now = λ e. (1000000000, e);
  sign = λ _ _ _ _ e. (ok "signature", e);
  check_url = λ _. none;
  round_trip = λ _ e. (
    ok (record {
      status_code = 503;
      status = "503 Service Unavailable";
      headers = [];
      body = "{\"reason\":\"ServiceUnavailable\"}";
    }),
    ℕ.suc e,
  );
  decode_reason = λ _. ok ("ServiceUnavailable", pos 0);
}

abbrev pub marshal : List (String × Value) → Result String
marshal m = ok "{}"

abbrev pub show_time : Option ℤ → String
show_time t = "some day"

abbrev pub no_stats : Stat
no_stats = record { ios_success = 0; ios_error = 0; android_success = 0; android_error = 0 }

abbrev pub start : World ℕ (Unit {0})
start = record { token = none; stats = no_stats; lines = []; env = 0 }
