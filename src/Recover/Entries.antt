-- ===== src/Recover/Entries.antt =====
-- The fields of a log line as cmd/gaurun_recover/gaurun_recover.go reads them back into a
-- `LogPushEntry` of gaurun/log.go: a field that is missing has its zero value.
use gaurun.Prelude.{ℕ, ℤ, pos, String, Bool, false, Option, some, lookup}
use gaurun.Log.{Value, str, int, bool, Line}
use gaurun.Recover.{Entry}

abbrev pub text_of : Option Value → String
text_of (some (str s)) = s
text_of _ = ""

abbrev pub int_of : Option Value → ℤ
int_of (some (int n)) = n
int_of _ = pos 0

abbrev pub bool_of : Option Value → Bool
bool_of (some (bool b)) = b
bool_of _ = false

abbrev id_of : Option Value → ℕ
id_of (some (int (pos n))) = n
id_of _ = 0

-- The tags of `LogPushEntry`; the logger writes the message under "message".
unfoldable pub decode : Line → Entry
decode line = record {
  kind = text_of (lookup "type" line.fields);
  id = id_of (lookup "id" line.fields);
  platform = text_of (lookup "platform" line.fields);
  token = text_of (lookup "token" line.fields);
  message = line.message;
  collapse_key = text_of (lookup "collapse_key" line.fields);
  delay_while_idle = bool_of (lookup "delay_while_idle" line.fields);
  time_to_live = int_of (lookup "time_to_live" line.fields);
  title = text_of (lookup "title" line.fields);
  subtitle = text_of (lookup "subtitle" line.fields);
  badge = int_of (lookup "badge" line.fields);
  category = text_of (lookup "category" line.fields);
  sound = text_of (lookup "sound" line.fields);
  content_available = bool_of (lookup "content_available" line.fields);
  mutable_content = bool_of (lookup "mutable_content" line.fields);
  expiry = int_of (lookup "expiry" line.fields);
}
