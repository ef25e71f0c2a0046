-- ===== src/Recover.antt =====
-- cmd/gaurun_recover/gaurun_recover.go: the scan of a push log, and the pushes it leaves to be made.
-- A Go map is an association list; the order of its iteration, which Go leaves open, is the list's.
pub mod Push
pub mod Entries
pub mod Main
pub mod Lost
pub mod Roundtrip
pub mod Laws
use gaurun.Prelude.{
  ℕ, ℤ, pos, String, Bool, false, List, [], ◌∷◌, Option, none, some, str_eq, lookup_id, insert_id,
  if◌then◌else◌,
}
use gaurun.Http.{Result, ok, err}
use gaurun.Notification.{Notification}

-- `LogPushEntry`, less its time, its duration and its error, which are not read again. `kind` is
-- its `Type`.
pub record Entry : Type 0 where
  pub kind : String
  pub id : ℕ
  pub platform : String
  pub token : String
  pub message : String
  pub collapse_key : String
  pub delay_while_idle : Bool
  pub time_to_live : ℤ
  pub title : String
  pub subtitle : String
  pub badge : ℤ
  pub category : String
  pub sound : String
  pub content_available : Bool
  pub mutable_content : Bool
  pub expiry : ℤ

pub record Scan : Type 0 where
  pub accepts : List (ℕ × Entry)
  pub successes : List (ℕ × Entry)

unfoldable pub take_entry : Scan → Entry → Scan
take_entry s e =
    if str_eq e.kind "accepted-request"
    then s
    else if str_eq e.kind "accepted-push"
    then record s { accepts = insert_id e.id e s.accepts }
    else if str_eq e.kind "succeeded-push"
    then record s { successes = insert_id e.id e s.successes }
    else s

-- The loop over the lines, with `json.Unmarshal` as a parameter; a line that is not read is passed
-- over.
module _ (unmarshal : String → Result Entry) where
  unfoldable pub take_line : Scan → String → Scan
  take_line s line = elim (unmarshal line) [ err e ↦ s | ok entry ↦ take_entry s entry ]

  unfoldable pub scan_from : Scan → List String → Scan
  scan_from s [] = s
  scan_from s (line ∷ lines) = scan_from (take_line s line) lines

  unfoldable pub scan : List String → Scan
  scan lines = scan_from (record { accepts = []; successes = [] }) lines

-- `losts[id] = logPush` for an id without success.
keep : Option Entry → ℕ → Entry → List (ℕ × Entry) → List (ℕ × Entry)
keep (some success) id e losts = losts
keep none id e losts = insert_id id e losts

unfoldable pub losts_from :
    (successes accepts : List (ℕ × Entry)) → List (ℕ × Entry) → List (ℕ × Entry)
unfolding keep
losts_from successes [] losts = losts
losts_from successes ((id, e) ∷ accepts) losts =
    losts_from successes accepts (keep (lookup_id id successes) id e losts)

unfoldable pub losts : Scan → List (ℕ × Entry)
losts s = losts_from s.successes s.accepts []

unfoldable pub platform_number : String → ℤ
platform_number platform =
    if str_eq platform "ios" then pos 1 else if str_eq platform "android" then pos 2 else pos 0

-- The notification that is pushed for a lost entry: the fields that are not named have their zero
-- values.
unfoldable pub request_of : Entry → Notification
request_of e = record {
  tokens = e.token ∷ [];
  platform = platform_number e.platform;
  message = e.message;
  identifier = "";
  collapse_key = e.collapse_key;
  delay_while_idle = e.delay_while_idle;
  time_to_live = e.time_to_live;
  priority = "";
  click_action = "";
  tag = "";
  title = e.title;
  subtitle = e.subtitle;
  push_type = "";
  badge = e.badge;
  category = e.category;
  sound = e.sound;
  content_available = e.content_available;
  mutable_content = false;
  expiry = e.expiry;
  retry = pos 0;
  extend = [];
  id = 0;
}
