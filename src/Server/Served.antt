-- ===== src/Server/Served.antt =====
-- What requests to the server change, and what they are answered.
use gaurun.Prelude.{
  ℤ, pos, ◌≡◌, ◌≢◌, refl, ◌≤ℤ◌, ◌<◌, sym, subst, arith, String, List, [], ◌∷◌, Option, none, some,
  lookup, inl, inr, length, true, false, str_eq, eq_iff, if◌then◌else◌, ◌⊎◌, ◌*ℤ◌, to_int64,
}
use gaurun.Http.{Result}
use gaurun.Conf.{ConfToml}
use gaurun.Conf.Pushers.{Values, set_pusher_max, config_pushers_handler}
use gaurun.Notification.{Notification}
use gaurun.Notification.Handler.{push_notification_handler}
use gaurun.Notification.Answers.{push_notification_handler-cases}
use gaurun.Stat.{stats_handler}
use gaurun.Server.Routes.{
  push_notifications, stats, config_pushers, go_stats, WebRequest, Answer, pushed, configured,
  reported, go_report, not_found, store_pusher_max, handle, serve_request, serve_all,
  register_handlers,
}

-- The configuration with another limit.
abbrev pub with_limit : ConfToml → ℤ → ConfToml
with_limit conf max = record conf { core = record (conf.core) { pusher_max = max } }

module _ {Body : Type 0} (read_all : Body → Result String)
    (unmarshal : String → Result (List Notification)) (decode : Body → Result (List Notification))
    (parse_query : String → Result (List (String × Values))) (parse_int : String → Result ℤ) where
  config_pushers_handler-nonneg :
      (old : ℤ) (method raw_query : String)
      → pos 0 ≤ℤ old
      → pos 0 ≤ℤ (config_pushers_handler parse_query parse_int old method raw_query).0
  unfolding config_pushers_handler set_pusher_max
  config_pushers_handler-nonneg old method raw_query h = ground (arith, h)

  -- The limit after requests, each of which is accepted or not by `config_pushers_handler_iff`.
  unfoldable pub limit_by : WebRequest Body → ℤ → ℤ
  limit_by r old =
      let (new, answer) =
        config_pushers_handler parse_query parse_int old r.request.method r.raw_query in
      if str_eq r.path "/config/pushers" then new else old

  unfoldable pub limit_after : List (WebRequest Body) → ℤ → ℤ
  limit_after [] old = old
  limit_after (r ∷ rs) old = limit_after rs (limit_by r old)

  -- A list for `enqueueNotifications` has between 1 and `notification_max` notifications.
  abbrev pub IsWithin : ConfToml → Option (List Notification) → Type 0
  IsWithin conf none = Unit
  IsWithin conf (some ns) = (0 < length ns) × (pos (length ns) ≤ℤ conf.core.notification_max)

  -- The answer that a request gets at the limit `old`: by the handler of its path; a report of what
  -- the counters are at the time, with the limit of all workers together.
  abbrev pub IsAnswer : ConfToml → ℤ → WebRequest Body → Answer → Type 0
  IsAnswer conf old r (pushed out) =
      (r.path ≡ "/push")
      × (out ≡ push_notification_handler read_all unmarshal decode (with_limit conf old) r.request)
      × IsWithin conf out.enqueue
  IsAnswer conf old r (reported report) =
      (r.path ≡ "/stat/app")
      × (report.queue_max ≡ r.live.queue_cap)
      × (report.queue_usage ≡ r.live.queue_len)
      × (report.pusher_max ≡ to_int64 (old *ℤ conf.core.worker_num))
      × (report.pusher_count ≡ r.live.pusher_count_all)
      × (report.counters ≡ r.live.counters)
  IsAnswer conf old r (configured answer) =
      (r.path ≡ "/config/pushers")
      × (answer ≡ (config_pushers_handler parse_query parse_int old r.request.method r.raw_query).1)
  IsAnswer conf old r go_report = r.path ≡ "/stat/go"
  IsAnswer conf old r not_found =
      (r.path ≢ "/push")
      × (r.path ≢ "/stat/app")
      × (r.path ≢ "/config/pushers")
      × (r.path ≢ "/stat/go")

  -- One answer for each request.
  abbrev pub AreAnswers : ConfToml → ℤ → List (WebRequest Body) → List Answer → Type 0
  AreAnswers conf old [] [] = Unit
  AreAnswers conf old [] (answer ∷ answers) = ⊥
  AreAnswers conf old (r ∷ rs) [] = ⊥
  AreAnswers conf old (r ∷ rs) (answer ∷ answers) =
      IsAnswer conf old r answer × AreAnswers conf (limit_by r old) rs answers

  within :
      (conf : ConfToml) (r : WebRequest Body)
      → IsWithin conf (push_notification_handler read_all unmarshal decode conf r.request).enqueue
  within conf r = elim (push_notification_handler-cases read_all unmarshal decode conf r.request) [
    | inl (ns, good, accepted) ↦ subst (IsWithin conf) (sym accepted.0) (good.3.0, good.3.1)
    | inr (_, refused) ↦ subst (IsWithin conf) (sym refused.0) tt
  ]

  -- The handler for a path.
  handler_for :
      (path : String)
      → let handler = lookup path (register_handlers []) in
        (((path ≡ "/push")
            × (str_eq path "/config/pushers" ≡ false)
            × (handler ≡ some push_notifications))
          ⊎ ((path ≡ "/stat/app")
              × (str_eq path "/config/pushers" ≡ false)
              × (handler ≡ some stats))
          ⊎ ((path ≡ "/config/pushers")
              × (str_eq path "/config/pushers" ≡ true)
              × (handler ≡ some config_pushers))
          ⊎ ((path ≡ "/stat/go")
              × (str_eq path "/config/pushers" ≡ false)
              × (handler ≡ some go_stats))
          ⊎ ((path ≢ "/push")
              × (path ≢ "/stat/app")
              × (path ≢ "/config/pushers")
              × (path ≢ "/stat/go")
              × (str_eq path "/config/pushers" ≡ false)
              × (handler ≡ none)))
  unfolding lookup register_handlers
  handler_for path =
      let push : ◌≢◌ {A = String} "/push" "/config/pushers" = λ e. cc e in
      let stat : ◌≢◌ {A = String} "/stat/app" "/config/pushers" = λ e. cc e in
      let go : ◌≢◌ {A = String} "/stat/go" "/config/pushers" = λ e. cc e in
      ground (
        arith,
        eq_iff path "/push",
        eq_iff path "/stat/app",
        eq_iff path "/config/pushers",
        eq_iff path "/stat/go",
      )

  handle-IsAnswer :
      (conf : ConfToml) (old : ℤ) (r : WebRequest Body)
      → let (answer, after) =
          serve_request read_all unmarshal decode parse_query parse_int r (with_limit conf old) in
        (IsAnswer conf old r answer × (after ≡ with_limit conf (limit_by r old)))
  unfolding serve_request handle store_pusher_max limit_by stats_handler
  handle-IsAnswer conf old r = elim (handler_for r.path) [
    | inl (path, other, e) ↦ simp (e, other) ((path, refl, within (with_limit conf old) r), refl)
    | inr (inl (path, other, e)) ↦ simp (e, other) ((path, refl, refl, refl, refl, refl), refl)
    | inr (inr (inl (path, limit, e))) ↦ simp (e, limit) ((path, refl), refl)
    | inr (inr (inr (inl (path, other, e)))) ↦ simp (e, other) (path, refl)
    | inr (inr (inr (inr (push, stat, config, go, other, e)))) ↦
        simp (e, other) ((push, stat, config, go), refl)
  ]

  limit_by-nonneg : (r : WebRequest Body) (old : ℤ) → pos 0 ≤ℤ old → pos 0 ≤ℤ limit_by r old
  unfolding limit_by
  limit_by-nonneg r old h =
      ground (arith, h, config_pushers_handler-nonneg old r.request.method r.raw_query h)

  limit_after-nonneg :
      (rs : List (WebRequest Body)) (old : ℤ) → pos 0 ≤ℤ old → pos 0 ≤ℤ limit_after rs old
  unfolding limit_after
  limit_after-nonneg [] old h = h
  limit_after-nonneg (r ∷ rs) old h =
      limit_after-nonneg rs (limit_by r old) (limit_by-nonneg r old h)

  serve_all-AreAnswers :
      (rs : List (WebRequest Body)) (conf : ConfToml) (old : ℤ)
      → let (answers, after) =
          serve_all read_all unmarshal decode parse_query parse_int rs (with_limit conf old) in
        (AreAnswers conf old rs answers × (after ≡ with_limit conf (limit_after rs old)))
  unfolding serve_all limit_after
  serve_all-AreAnswers [] conf old = (tt, refl)
  serve_all-AreAnswers (r ∷ rs) conf old =
      let (first, e) = handle-IsAnswer conf old r in
      let (later, e') = serve_all-AreAnswers rs conf (limit_by r old) in
      simp (e) ((first, later), e')

  -- Whatever requests come, and in whatever order, and whatever goroutines and workers do between
  -- them: of the configuration they change the limit `pusher_max` alone, which is in the end what the
  -- requests to /config/pushers make of it one after another, and is 0 or above if it was so before;
  -- and each is answered by the handler of its path, with the configuration as it started and the
  -- limit as the requests before have left it. A report shows the counters of its time and the limit
  -- of all workers together, and every list that is handed to `enqueueNotifications` has between 1 and
  -- `notification_max` notifications.
  pub serve_all-with_limit :
      (rs : List (WebRequest Body)) (conf : ConfToml)
      → pos 0 ≤ℤ conf.core.pusher_max
      → let (answers, after) = serve_all read_all unmarshal decode parse_query parse_int rs conf in
        ((after ≡ with_limit conf (limit_after rs conf.core.pusher_max))
          × (pos 0 ≤ℤ limit_after rs conf.core.pusher_max)
          × AreAnswers conf conf.core.pusher_max rs answers)
  serve_all-with_limit rs conf h =
      let (answered, e) = serve_all-AreAnswers rs conf conf.core.pusher_max in
      (e, limit_after-nonneg rs conf.core.pusher_max h, answered)
