-- ===== src/Log/Setup.antt =====
-- gaurun/log.go: `InitLog` and `LogAcceptedRequest`. `reopen.NewFileWriterMode` (an error text, or
-- none) and `zapcore.Level.UnmarshalText` are parameters; what `InitLog` chooses of a logger is its
-- writer and its level `Level`.
use gaurun.Prelude.{ℕ, ℤ, String, [], ◌∷◌, Option, none, some, str_eq, if◌then◌else◌}
use gaurun.Http.{Result, ok, err}
use gaurun.Log.{Line, access, str, int}

pub data Writer : Type 0 where
  stdout stderr discard : Writer
  file : (path : String) → (mode : ℕ) → Writer

pub record Logging (Level : Type 0) : Type 0 where
  pub writer : Writer
  pub level : Level

module _ {Level : Type 0} (new_file_writer : (path : String) → (mode : ℕ) → Option String)
    (unmarshal_level : String → Result Level) where
  -- Mode 0644, in octal.
  open_file : String → Result Writer
  open_file path = elim (new_file_writer path 420) [
    | some text ↦ err text
    | none ↦ ok (file path 420)
  ]

  unfoldable pub writer_of : String → Result Writer
  unfolding open_file
  writer_of out =
      if str_eq out "stdout"
      then ok stdout
      else if str_eq out "stderr"
      then ok stderr
      else if str_eq out "discard"
      then ok discard
      else open_file out

  -- `InitLog`
  unfoldable pub init_log : (out level : String) → Result (Logging Level)
  init_log out level = elim (writer_of out) [
    | err text ↦ err text
    | ok writer ↦ elim (unmarshal_level level) [
      | err text ↦ err text
      | ok lowest ↦ ok (record { writer = writer; level = lowest })
    ]
  ]

-- `LogAcceptedRequest`
unfoldable pub log_accepted_request : (uri method proto : String) → (content_length : ℤ) → Line
log_accepted_request uri method proto content_length = record {
  logger = access;
  message = "";
  fields =
      ("type", str "accepted-request")
      ∷ ("uri", str uri)
      ∷ ("method", str method)
      ∷ ("proto", str proto)
      ∷ ("content_length", int content_length)
      ∷ [];
}
