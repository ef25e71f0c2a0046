-- ===== src/Conf/Pushers.antt =====
-- gaurun/conf.go: `PUT /config/pushers`. `url.ParseQuery` and `strconv.ParseInt(_, 0, 64)` are the
-- parameters `parse_query` and `parse_int`; both answer an error with its text.
use gaurun.Prelude.{
  ℤ, pos, String, not, List, none, some, is_empty, str_eq, lookup, ltb_ℤ, if◌then◌else◌,
}
use gaurun.Http.{Response, response, Result, ok, err}

-- The values of a query parameter: `ParseQuery` stores no key without a value.
pub record Values : Type 0 where
  pub first : String
  pub others : List String

-- The loop over the map stops at the key "max"; a map holds a key once, so this is a lookup.
unfoldable pub max_value : List (String × Values) → String
unfolding lookup
max_value values = elim (lookup "max" values) [ none ↦ "" | some v ↦ v.first ]

module _ (parse_query : String → Result (List (String × Values)))
    (parse_int : String → Result ℤ) where
  -- The new value of `ConfGaurun.Core.PusherMax` and the response.
  unfoldable pub set_pusher_max : ℤ → String → ℤ × Response
  set_pusher_max old text =
      if is_empty text then (old, response "malformed value" 400) else elim (parse_int text) [
        | err e ↦ (old, response "malformed value" 400)
        | ok new ↦
            if ltb_ℤ new (pos 0)
            then (old, response "malformed value" 400)
            else (new, response "ok" 200)
      ]

  unfoldable pub config_pushers_handler : ℤ → (method raw_query : String) → ℤ × Response
  unfolding set_pusher_max
  config_pushers_handler old method raw_query =
      if not (str_eq method "PUT")
      then (old, response "method must be PUT" 400)
      else elim (parse_query raw_query) [
        | err e ↦ (old, response "url parameters could not be parsed" 400)
        | ok values ↦ set_pusher_max old (max_value values)
      ]
