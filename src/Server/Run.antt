-- ===== src/Server/Run.antt =====
-- What cmd/gaurun/gaurun.go does to the outside, as a list of effects, and programs that may stop.
use gaurun.Prelude.{ℕ, ℤ, String, List, [], ◌∷◌, ◌++◌, Option, none, some}
use gaurun.Http.{Result, ok, err}
use gaurun.Server.Apns.{Loaded, loaded, fault}

pub data Severity : Type 0 where
  info warn error : Severity

pub data Effect : Type 0 where
  print : String → Effect
  -- `LogSetupFatal`, which ends the program, and a fault
  log_fatal : String → Effect
  panic : Effect
  -- the file of a log, opened by `reopen.NewFileWriterMode`
  open_log : (path : String) → (mode : ℕ) → Effect
  -- the goroutine that runs `signalHandler`
  go_signal_handler : Effect
  write_file : (path content : String) → Effect
  init_stat : Effect
  start_push_workers : (worker_num queue_num : ℤ) → Effect
  -- the goroutine that calls `RunServer`
  go_run_server : (port : String) → Effect
  log_error : Severity → String → Effect
  -- `PusherWg.Wait()`
  wait_pushers : Effect

-- The effects, and the value if the program has not stopped.
abbrev pub Run : Type 0 → Type 0
Run A = List Effect × Option A

infixl 5 ◌>>=◌ ◌>>◌
abbrev pub ◌>>=◌ : {A B : Type 0} → Run A → (A → Run B) → Run B
(effects, none) >>= f = (effects, none)
(effects, some a) >>= f = let (more, result) = f a in (effects ++ more, result)

abbrev pub ◌>>◌ : {B : Type 0} → Run (Unit {0}) → Run B → Run B
m >> k = m >>= λ _. k

abbrev pub pure : {A : Type 0} → A → Run A
pure a = ([], some a)

abbrev pub emit : Effect → Run (Unit {0})
emit effect = (effect ∷ [], some tt)

abbrev pub fatal : {A : Type 0} → String → Run A
fatal text = (log_fatal text ∷ [], none)

abbrev pub or_fatal : {A : Type 0} → (text_of : String → String) → Result A → Run A
or_fatal text_of (err text) = fatal (text_of text)
or_fatal text_of (ok a) = pure a

-- An error by its text, if there is one.
abbrev pub unless_fatal : Option String → Run (Unit {0})
unless_fatal (some text) = fatal text
unless_fatal none = pure tt

-- A fault as the result of a call.
abbrev pub or_panic : {A : Type 0} → Loaded A → Run A
or_panic fault = (panic ∷ [], none)
or_panic (loaded a) = pure a
