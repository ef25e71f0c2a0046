-- ===== src/Server/Started.antt =====
-- How the start of cmd/gaurun/gaurun.go ends.
use gaurun.Prelude.{◌≡◌, ◌⊎◌, List, [], ◌++◌, none, some}
use gaurun.Conf.{ConfToml}
use gaurun.Server.Run.{Effect, Run}
use gaurun.Server.Ending.{Stopped}
use gaurun.Server.Main.{Flags, Machine, Globals}
use gaurun.Server.Ready.{IsReady, IsRead, prepared}

module _ {Level B Cert Key : Type 0} (m : Machine Level B Cert Key) where
  abbrev IsReadyFor : Flags → ConfToml → Globals Level Cert Key → Type 0
  IsReadyFor flags conf g = (ready : IsReady m flags g) × (ready.conf ≡ conf)

  -- The program stops with nothing done before, or on the way through the preparations; or it has a
  -- value after them and the effects `more` that depend on the value.
  abbrev pub Started :
      (more : Globals Level Cert Key → List Effect) → Flags → Run (Globals Level Cert Key) → Type 0
  Started more flags (effects, none) =
      Stopped [] effects
      ⊎ ((conf : ConfToml) × IsRead m flags conf × Stopped (prepared m flags conf) effects)
  Started more flags (effects, some g) =
      (ready : IsReady m flags g) × (effects ≡ prepared m flags ready.conf ++ more g)
