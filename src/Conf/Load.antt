-- ===== src/Conf/Load.antt =====
-- gaurun/conf.go: `LoadConf` and `LoadAccsessKeyJson`. `ioutil.ReadFile` and `toml.Unmarshal` are
-- parameters; the decoder writes into the configuration that it is given.
use gaurun.Prelude.{String}
use gaurun.Http.{Result, ok, err}
use gaurun.Conf.{ConfToml}

module _ (read_file : String → Result String)
    (unmarshal : (doc : String) → ConfToml → Result ConfToml) where
  unfoldable pub load_conf : ConfToml → (conf_path : String) → Result ConfToml
  load_conf conf_gaurun conf_path = elim (read_file conf_path) [
    | err text ↦ err text
    | ok doc ↦ elim (unmarshal doc conf_gaurun) [ err text ↦ err text | ok conf ↦ ok conf ]
  ]

unfoldable pub load_accsess_key_json :
    (read_file : String → Result String) → (accsess_key_path : String) → Result String
load_accsess_key_json read_file accsess_key_path = elim (read_file accsess_key_path) [
  | err text ↦ err text
  | ok json ↦ ok json
]
