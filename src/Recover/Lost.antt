-- ===== src/Recover/Lost.antt =====
-- What cmd/gaurun_recover/gaurun_recover.go pushes again, by the log that gaurun/log.go has written.
use gaurun.Prelude.{
  ℕ, ℤ, ◌≡◌, ◌↔◌, ◌⊎◌, refl, ap, ◌∙◌, inl, inr, arith, String, Bool, false, ◌&&◌, List, [], ◌∷◌,
  Option, none, some, map, str_eq, lookup, ◌==◌, lookup_id, All, Bool-cases,
}
use gaurun.Http.{Result, ok}
use gaurun.Notification.{Notification}
use gaurun.Log.{
  Line, Status, accepted_push, succeeded_push, failed_push, disabled_push, status_text, log_push,
}
use gaurun.Log.Setup.{log_accepted_request}
use gaurun.Conf.{ConfToml, build_default_conf}
use gaurun.Server.Fcm.{FcmClient}
use gaurun.Conf.Load.{load_conf, load_accsess_key_json}
use gaurun.Server.Apns.{ApnsClient, loaded}
use gaurun.Server.Main.{Machine, apns_result}
use gaurun.Recover.{Entry, scan, losts}
use gaurun.Recover.Main.{Flags, Plan, opened, gcm_client, with_timeout, recover, main}
use gaurun.Recover.Entries.{decode}
use gaurun.Recover.Laws.{read, last_of, unless_succeeded, losts-eq-unless}
use gaurun.Recover.Roundtrip.{entry_of, decode-log_push}

-- A line of the log by the call that writes it.
pub data Logged : Type 0 where
  request : (uri method proto : String) → (content_length : ℤ) → Logged
  push : (id : ℕ) → Status → (token : String) → (ptime : ℕ) → Notification → Option String → Logged

unfoldable pub line_of : Logged → Line
line_of (request uri method proto content_length) =
    log_accepted_request uri method proto content_length
line_of (push id status token ptime req error) = log_push id status token ptime req error

-- The line says that the push with this number has come to this status.
abbrev pub tells : Status → ℕ → Logged → Bool
tells status id (push id' status' token ptime req error) =
    str_eq (status_text status') (status_text status) && id == id'
tells status id (request uri method proto content_length) = false

-- No line of the log says so.
abbrev pub Never : Status → ℕ → List Logged → Type 0
Never status id = All (λ logged. tells status id logged ≡ false)

abbrev entry_matches : Status → ℕ → Entry → Bool
entry_matches status id e = str_eq e.kind (status_text status) && id == e.id

-- The reader sees the statuses as they were written.
decode-entry_matches :
    (status : Status) (id : ℕ) (logged : Logged)
    → entry_matches status id (decode (line_of logged)) ≡ tells status id logged
unfolding line_of decode log_accepted_request lookup entry_of
decode-entry_matches accepted_push id (request uri method proto content_length) = refl
decode-entry_matches succeeded_push id (request uri method proto content_length) = refl
decode-entry_matches failed_push id (request uri method proto content_length) = refl
decode-entry_matches disabled_push id (request uri method proto content_length) = refl
decode-entry_matches asked id (push id' status token ptime req error) =
    ap (entry_matches asked id) (decode-log_push id' status token ptime req error)

-- An entry is found exactly if one matches, or there was one before.
last_of-none_iff :
    (status : Status) (id : ℕ) (before : Option Entry) (log : List Logged)
    → (last_of (status_text status) id before (map (λ x. decode (line_of x)) log) ≡ none)
      ↔ ((before ≡ none) × Never status id log)
unfolding last_of
last_of-none_iff status id before [] = ground arith
last_of-none_iff status id before (x ∷ log) = elim (Bool-cases (tells status id x)) [
  | inl told ↦
      rw (decode-entry_matches status id x ∙ told, last_of)
        (ground (arith, told, last_of-none_iff status id (some (decode (line_of x))) log))
  | inr other ↦
      rw (decode-entry_matches status id x ∙ other, last_of)
        (ground (arith, other, last_of-none_iff status id before log))
]

unless_succeeded-none_iff :
    (success accepted : Option Entry)
    → (unless_succeeded success accepted none ≡ none) ↔ ((accepted ≡ none) ⊎ ¬ (success ≡ none))
unless_succeeded-none_iff none none = ground arith
unless_succeeded-none_iff none (some e) = ground arith
unless_succeeded-none_iff (some x) none = ground arith
unless_succeeded-none_iff (some x) (some e) = ground arith

module _ (encode : Line → String) (unmarshal : String → Result Entry) where
  abbrev pub text_of_log : List Logged → List String
  text_of_log = map (λ x. encode (line_of x))

  -- The JSON decoder reads the lines of this log as they were encoded.
  abbrev pub Reads : List Logged → Type 0
  Reads = All (λ x. unmarshal (encode (line_of x)) ≡ ok (decode (line_of x)))

  read-map :
      (log : List Logged)
      → Reads log
      → read unmarshal (text_of_log log) ≡ map (λ x. decode (line_of x)) log
  read-map [] reads = refl
  read-map (x ∷ log) (first, reads) = rw (first, read-map log reads) refl

  losts_iff :
      (log : List Logged) (id : ℕ)
      → Reads log
      → (lookup_id id (losts (scan unmarshal (text_of_log log))) ≡ none)
        ↔ (Never accepted_push id log ⊎ ¬ (Never succeeded_push id log))
  losts_iff log id reads =
      rw (losts-eq-unless unmarshal (text_of_log log) id, read-map log reads)
        (ground (
          arith,
          unless_succeeded-none_iff
              (last_of "succeeded-push" id none (map (λ x. decode (line_of x)) log))
              (last_of "accepted-push" id none (map (λ x. decode (line_of x)) log)),
          last_of-none_iff accepted_push id none log,
          last_of-none_iff succeeded_push id none log,
        ))

  -- The recovery tool, run on a log as the server writes it (with any lines for requests between the
  -- lines for pushes), comes to its pushes if its files can be read and its clients be made, and then
  -- pushes again just the numbers of which the log has an acceptance and no success.
  pub main-losts_iff :
      {Level B Cert Key : Type 0} (m : Machine Level B Cert Key)
      (open_log : String → Result (List String)) (flags : Flags) (json : String) (conf : ConfToml)
      (client : ApnsClient Cert Key) (gcm : FcmClient) (log : List Logged)
      → Reads log
      → flags.version_printed ≡ false
      → load_accsess_key_json m.read_file flags.access_key_path ≡ ok json
      → load_conf m.read_file m.unmarshal_conf (build_default_conf m.num_cpu) flags.conf_path
        ≡ ok conf
      → open_log flags.log_path ≡ ok (text_of_log log)
      → apns_result m conf.ios ≡ ok (loaded client)
      → gcm_client m unmarshal open_log conf.android ≡ ok gcm
      → (plan : Plan Cert Key) × (main m unmarshal open_log flags ≡ ([], some plan))
        × ((id : ℕ)
            → (lookup_id id plan.losts ≡ none)
              ↔ (Never accepted_push id log ⊎ ¬ (Never succeeded_push id log)))
  unfolding main recover opened
  main-losts_iff m open_log flags json conf client gcm log reads run key conf_read opens apns fcm =
      (
        record {
          conf_gaurun = conf;
          apns_client = with_timeout conf.ios client;
          losts = losts (scan unmarshal (text_of_log log));
        },
        simp (run, key, conf_read, opens, apns, fcm) refl,
        λ id. losts_iff log id reads,
      )
