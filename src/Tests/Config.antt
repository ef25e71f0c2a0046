-- ===== src/Tests/Config.antt =====
-- `PUT /config/pushers`.
use gaurun.Prelude.{ℤ, pos, negsuc, String, ◌≡◌, refl, ◌↔◌, ◌⊎◌, List, [], ◌∷◌, lookup, none, some}
use gaurun.Http.{Result, ok, err, response}
use gaurun.Conf.Pushers.{Values, max_value, config_pushers_handler}
use gaurun.Conf.Laws.{Accepts, config_pushers_handler_iff}

abbrev parse_query : String → Result (List (String × Values))
parse_query q = ok (("max", record { first = q; others = [] }) ∷ [])

-- Three texts that `strconv.ParseInt` reads.
abbrev parse_int : String → Result ℤ
parse_int text = elim (lookup text (("24", pos 24) ∷ ("0x10", pos 16) ∷ ("-3", negsuc 2) ∷ [])) [
  | none ↦ err "invalid syntax"
  | some n ↦ ok n
]

handler_tests :
    (config_pushers_handler parse_query parse_int (pos 1) "PUT" "24" ≡ (pos 24, response "ok" 200))
    × (config_pushers_handler parse_query parse_int (pos 1) "PUT" "-3"
        ≡ (pos 1, response "malformed value" 400))
    × (config_pushers_handler parse_query parse_int (pos 1) "GET" "24"
        ≡ (pos 1, response "method must be PUT" 400))
unfolding config_pushers_handler max_value lookup
handler_tests = (refl, refl, refl)

config_pushers_handler_iff_example :
    ((config_pushers_handler parse_query parse_int (pos 1) "PUT" "24" ≡ (pos 24, response "ok" 200))
      ↔ Accepts parse_query parse_int "PUT" "24" (pos 24))
    × (((stored : ℤ) × (config_pushers_handler parse_query parse_int (pos 1) "PUT" "24"
            ≡ (stored, response "ok" 200)))
        ⊎ ((config_pushers_handler parse_query parse_int (pos 1) "PUT" "24").1.code ≡ 400)
          × ((config_pushers_handler parse_query parse_int (pos 1) "PUT" "24").0 ≡ pos 1))
config_pushers_handler_iff_example =
    config_pushers_handler_iff parse_query parse_int (pos 1) (pos 24) "PUT" "24"
