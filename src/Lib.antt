-- ===== src/Lib.antt =====
-- Gaurun: a push notification server for Apple's service (APNs) and for Firebase (FCM).
--
-- The program. `POST /push` (gaurun/notification.go) takes a list of notifications, validates each,
-- numbers one copy for each of its tokens, logs it, and sends it to a channel. Workers
-- (gaurun/worker.go) take notifications from the channel and push them, themselves or by a goroutine
-- where the limit `pusher_max` allows, with retries. A push goes by gaurun/apns_http2.go to buford/
-- or to gcm/, counts in gaurun/stat.go and is logged by gaurun/log.go. From that log
-- cmd/gaurun_recover finds the accepted notifications without a success and pushes them again.
--
-- Which file is about which code:
--   Conf, Conf/Load, Pushers      gaurun/conf.go: the configuration, its file, PUT /config/pushers
--   Notification                  gaurun/notification.go, gaurun/const.go: the request's records
--   Notification/Validate         validateNotification
--   Notification/Enqueue          enqueueNotifications; Notification/Spec: what it is to do
--   Notification/Handler          PushNotificationHandler
--   Notification/Concurrent       goroutines of enqueueNotifications, interleaved
--   Log, Log/Setup, Stat          gaurun/log.go, gaurun/stat.go
--   Http, Version                 sendResponse, gaurun/version.go
--   Pusher, Pusher/Ios            pushNotificationIos and gaurun/apns_http2.go
--   Pusher/Android                pushNotificationAndroid
--   Worker, Worker/Retry          isExternalServerError, the loop of pushSync and pushAsync
--   Pusher/Dispatch               the choice of the pusher in pushNotificationWorker, and its loop
--   Worker/Pool                   the workers and goroutines, interleaved
--   Buford/Badge, Payload         buford/payload/
--   Buford/Errors, Push           buford/push/: errors.go, header.go, service.go, device_token.go
--   Buford/Push/Queue             buford/push/queue.go
--   Buford/Token                  buford/token/token.go
--   Gcm/Message, Client           gcm/
--   Recover, Recover/Push         cmd/gaurun_recover/gaurun_recover.go
--   Recover/Entries               the fields of a log line, read back
--   Recover/Main                  its main, up to the goroutines that push
--   Server, Server/Listener       gaurun/client.go, gaurun/server.go
--   Server/Apns, Server/Fcm       the clients: gaurun/apns_http2.go, gaurun/client.go
--   Server/Routes                 RegisterHandlers, and what a request is answered
--   Server/Start                  the flags and checks of cmd/gaurun/gaurun.go
--   Server/Run, Server/Main       its main as a program with effects, up to the server
--   Server/Signals                its handler of SIGHUP and its shutdown
--   Sample                        samples/client.go
-- The files named Laws, Queued, Once, Deliverable, Answers, Ends, Books, Totals, Served, Genuine,
-- Keeps, Counts, Invariant, Limit, Progress, Drain, Rest, Roundtrip, Lost, Ending, Ready, Started,
-- Starts, Startable, Needs, Outcomes, Keys, Accepted and Worker/Fcm, Pusher/Payload,
-- Buford/Push/Tokens hold what is proved of these definitions; Prelude holds what the others share,
-- Http the responses and results, Tests the runs on concrete inputs. Names follow the source, in the
-- spelling of this library: `validateNotification` is `validate_notification`.
--
-- State and effects. Global variables are arguments and results: the counter `SeqID`, the counters
-- of gaurun/stat.go, the log lines written, the client's token. What the code calls outside this
-- repository (clocks, HTTP, JSON, signatures, files) is a parameter over a state `E` of the world,
-- collected in the records `Outside` of Buford/Push and Gcm/Client, `System` of Server/Listener and
-- `Machine` of Server/Main. A main program is a list of effects with a value at the end, or a stop
-- at a fatal error. What goroutines and workers change between two requests, each request is given
-- as it is at its time (`Live` of Server/Routes). An index out of range or a nil pointer is a result
-- of its own, `fault` or `none`.
--
-- Numbers. Sizes, durations and uint64 are natural numbers, int and int64 are integers; where the
-- code can wrap (`SeqID`, the counters, the badge, the expiry) the remainder by 2^64 is written out.
--
-- Fuel. The retry loop has `budget req retry_max + 1` rounds, where the budget is retry_max less the
-- retries made so far: every further round needs a retry below retry_max and makes one. The other
-- loops recur on their lists.
--
-- The pool of workers is a step relation: a step is one access to the channel, to a counter, to the
-- wait group or to the limit, by any worker or goroutine; a push with its retries is the time
-- between two steps. The counters are unbounded integers there.
--
-- Two more step relations stand beside it: the goroutines of `enqueueNotifications` over `SeqID` and
-- the queue (without the bound of the channel, which only delays a send), and the queue of
-- buford/push with its callers, workers and reader. The steps of these are not joined with those of
-- the pool: what has been queued is handed on as a list.
--
-- Not modelled: the libraries themselves (TLS, X.509, TOML, JSON, HTTP, the encoder of log lines)
-- and the parse of flags.
mod Prelude
pub mod Version
pub mod Http
pub mod Conf
pub mod Notification
pub mod Log
pub mod Buford
pub mod Gcm
pub mod Stat
pub mod Pusher
pub mod Worker
pub mod Recover
pub mod Server
pub mod Sample
mod Tests
