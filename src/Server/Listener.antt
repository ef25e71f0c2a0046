-- ===== src/Server/Listener.antt =====
-- gaurun/server.go: `getListener`. The system is a parameter over the state `E` of the world: the
-- listeners handed over by the starter (no error if there is none), `net.Listen`, `os.Lstat` with
-- its test for a socket, and `os.Remove`. `strconv.Atoi` is a parameter too.
use Prim.Native.String.{String}
use gaurun.Prelude.{
  ℕ, zero, suc, ◌++ˢ◌, Bool, List, [], ◌∷◌, Option, none, some, is_empty, codes, begins_with,
  if◌then◌else◌,
}
use gaurun.Http.{Result, ok, err}

pub record System (E L : Type 0) : Type 0 where
  pub listen_all : E → Result (List L)
  pub listen : (network address : String) → E → Result L × E
  pub is_socket : String → E → Bool
  pub remove : String → E → Option String × E

-- `s[n:]`
unfoldable pub skip : ℕ → String → String
skip zero s = s
skip (suc n) String.[] = String.[]
skip (suc n) (String.◌∷◌ c s) = skip n s

module _ {E L : Type 0} (sys : System E L) (is_int : String → Bool) where
  wrap : Result L × E → Result L × E
  wrap (err text, e) = (err ("failed to listen unix socket: " ++ˢ text), e)
  wrap (ok l, e) = (ok l, e)

  -- After the old socket, if there is one, has been removed.
  listen_unix : String → Option String × E → Result L × E
  unfolding wrap
  listen_unix path (some text, e) = (err ("failed to remove socket path: " ++ˢ text), e)
  listen_unix path (none, e) = wrap (sys.listen "unix" path e)

  unfoldable pub listen_at : String → E → Result L × E
  unfolding listen_unix
  listen_at port e =
      let path = skip 5 port in
      if is_empty port
      then (err "no port to listen", e)
      else if is_int port
      then sys.listen "tcp" (":" ++ˢ port) e
      else if begins_with (codes "unix:/") (codes port)
      then listen_unix path (if sys.is_socket path e then sys.remove path e else (none, e))
      else (
        err (("invalid port " ++ˢ port) ++ˢ " (it must be number or path start with 'unix:/')"),
        e,
      )

  -- `getListener`
  unfoldable pub get_listener : String → E → Result L × E
  get_listener port e = elim (sys.listen_all e) [
    | err text ↦ (err text, e)
    | ok (l ∷ ls) ↦ (ok l, e)
    | ok [] ↦ listen_at port e
  ]

  -- `RunServer`, with `server.Serve` as a parameter; `none` if it returns without an error.
  serve_on : (serve : L → E → Option String × E) → Result L × E → Option String × E
  serve_on serve (err text, e) = (some text, e)
  serve_on serve (ok l, e) = serve l e

  unfoldable pub run_server :
      (serve : L → E → Option String × E) → (port : String) → E → Option String × E
  unfolding serve_on
  run_server serve port e = serve_on serve (get_listener port e)
