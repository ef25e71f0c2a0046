-- ===== src/Version.antt =====
-- gaurun/version.go and the version of gaurun/const.go.
use gaurun.Prelude.{String, ◌++ˢ◌}

-- `Version`
abbrev pub version : String
version = "0.13.1"

-- `serverHeader`
unfoldable pub server_header : String
server_header = "Gaurun " ++ˢ version

-- What `PrintVersion` prints.
unfoldable pub version_text : (compiler go_version : String) → String
version_text compiler go_version =
    ("Gaurun " ++ˢ (version ++ˢ "\nCompiler: "))
    ++ˢ ((compiler ++ˢ (" " ++ˢ go_version)) ++ˢ "\nCopyright (C) 2014-2019 Mercari, Inc.\n")
