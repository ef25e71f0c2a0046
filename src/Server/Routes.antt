-- ===== src/Server/Routes.antt =====
-- gaurun/server.go: `RegisterHandlers`, and the requests that the handlers answer one after another.
-- The multiplexer of net/http takes a pattern without a final slash for that path alone; it redirects
-- a path that is not clean, which is left out.
use gaurun.Prelude.{ℕ, ℤ, String, List, [], ◌∷◌, Option, none, some, lookup}
use gaurun.Http.{Response, Result}
use gaurun.Conf.{ConfToml}
use gaurun.Conf.Pushers.{Values, config_pushers_handler}
use gaurun.Notification.{Notification}
use gaurun.Notification.Handler.{Request, Outcome, push_notification_handler}
use gaurun.Stat.{Stat, StatApp, stats_handler}

pub data Handler : Type 0 where
  push_notifications stats config_pushers go_stats : Handler

-- `RegisterHandlers`
unfoldable pub register_handlers : List (String × Handler) → List (String × Handler)
register_handlers mux =
    ("/push", push_notifications)
    ∷ ("/stat/app", stats)
    ∷ ("/config/pushers", config_pushers)
    ∷ ("/stat/go", go_stats)
    ∷ mux

-- What the handlers read besides the configuration: the channel's capacity and length, the count of
-- all pushers, the counters. Goroutines and workers change them at any time.
pub record Live : Type 0 where
  pub queue_cap : ℕ
  pub queue_len : ℕ
  pub pusher_count_all : ℕ
  pub counters : Stat

-- A request, and what `live` is when it is answered.
pub record WebRequest (Body : Type 0) : Type 0 where
  pub path : String
  pub raw_query : String
  pub request : Request Body
  pub live : Live

pub data Answer : Type 0 where
  pushed : Outcome → Answer
  configured : Response → Answer
  reported : StatApp → Answer
  -- by the library that reports on Go's runtime, and by the multiplexer
  go_report not_found : Answer

module _ {Body : Type 0} (read_all : Body → Result String)
    (unmarshal : String → Result (List Notification)) (decode : Body → Result (List Notification))
    (parse_query : String → Result (List (String × Values))) (parse_int : String → Result ℤ) where
  -- `atomic.StoreInt64(&ConfGaurun.Core.PusherMax, …)`
  unfoldable pub store_pusher_max : ConfToml → ℤ × Response → Answer × ConfToml
  store_pusher_max conf (max, answer) =
      (configured answer, record conf { core = record (conf.core) { pusher_max = max } })

  -- What a handler answers, and what it makes of the configuration. The list of notifications for
  -- which a handler starts a goroutine is part of its answer; what the goroutine does is seen in what
  -- later requests find as `live`.
  unfoldable pub handle : Option Handler → WebRequest Body → ConfToml → Answer × ConfToml
  unfolding store_pusher_max
  handle none r conf = (not_found, conf)
  handle (some push_notifications) r conf =
      (pushed (push_notification_handler read_all unmarshal decode conf r.request), conf)
  handle (some stats) r conf = (
    reported (
        stats_handler r.live.queue_cap r.live.queue_len conf.core.pusher_max conf.core.worker_num
          r.live.pusher_count_all r.live.counters),
    conf,
  )
  handle (some config_pushers) r conf = store_pusher_max conf (
      config_pushers_handler parse_query parse_int conf.core.pusher_max r.request.method
        r.raw_query)
  handle (some go_stats) r conf = (go_report, conf)

  -- The handler that is registered for the path.
  unfoldable pub serve_request : WebRequest Body → ConfToml → Answer × ConfToml
  serve_request r conf = handle (lookup r.path (register_handlers [])) r conf

  -- Requests one after another.
  unfoldable pub serve_all : List (WebRequest Body) → ConfToml → List Answer × ConfToml
  serve_all [] conf = ([], conf)
  serve_all (r ∷ rs) conf =
      let (answer, conf') = serve_request r conf in
      let (answers, conf'') = serve_all rs conf' in (answer ∷ answers, conf'')
