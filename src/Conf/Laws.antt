-- ===== src/Conf/Laws.antt =====
-- About `PUT /config/pushers` of gaurun/conf.go.
use gaurun.Prelude.{
  ℤ, pos, String, ◌≡◌, ◌↔◌, ◌⊎◌, List, arith, eq_iff, ◌≤ℤ◌, is_empty, false, inl, inr, Bool-cases,
  str_eq, ltb_ℤ,
}
use gaurun.Http.{response, Result, ok, Result-cases}
use gaurun.Conf.Pushers.{Values, max_value, set_pusher_max, config_pushers_handler}

module _ (parse_query : String → Result (List (String × Values)))
    (parse_int : String → Result ℤ) where
  -- Accepted: the method is PUT, the query parses, and its "max" is a number that is not negative.
  pub record Accepts (method raw_query : String) (new : ℤ) : Type 0 where
    pub method_put : method ≡ "PUT"
    pub values : List (String × Values)
    pub parsed : parse_query raw_query ≡ ok values
    pub given : is_empty (max_value values) ≡ false
    pub number : parse_int (max_value values) ≡ ok new
    pub nonneg : pos 0 ≤ℤ new

  set_pusher_max_iff :
      (old new : ℤ) (text : String)
      → (set_pusher_max parse_query parse_int old text ≡ (new, response "ok" 200))
        ↔ ((is_empty text ≡ false) × (parse_int text ≡ ok new) × (pos 0 ≤ℤ new))
  unfolding set_pusher_max
  set_pusher_max_iff old new text = (ground arith, ground arith)

  set_pusher_max-cases :
      (old : ℤ) (text : String)
      → ((stored : ℤ) × (set_pusher_max parse_query parse_int old text
            ≡ (stored, response "ok" 200)))
        ⊎ ((set_pusher_max parse_query parse_int old text).1.code ≡ 400)
          × ((set_pusher_max parse_query parse_int old text).0 ≡ old)
  unfolding set_pusher_max
  set_pusher_max-cases old text = elim (Bool-cases (is_empty text)) [
    | inl blank ↦ inr (ground (arith, blank))
    | inr given ↦ elim (Result-cases (parse_int text)) [
      | inr (e, unparsed) ↦ inr (ground (arith, given, unparsed))
      | inl (new, parsed) ↦ elim (Bool-cases (ltb_ℤ new (pos 0))) [
        | inl negative ↦ inr (ground (arith, given, parsed, negative))
        | inr nonneg ↦ inl (new, ground (arith, given, parsed, nonneg))
      ]
    ]
  ]

  -- The handler answers 200 "ok" and stores `new` exactly when the request is accepted with `new`;
  -- on any other request it answers 400 and the limit stays as it was.
  pub config_pushers_handler_iff :
      (old new : ℤ) (method raw_query : String)
      → ((config_pushers_handler parse_query parse_int old method raw_query
            ≡ (new, response "ok" 200))
          ↔ Accepts method raw_query new)
        × (((stored : ℤ) × (config_pushers_handler parse_query parse_int old method raw_query
                ≡ (stored, response "ok" 200)))
            ⊎ ((config_pushers_handler parse_query parse_int old method raw_query).1.code ≡ 400)
              × ((config_pushers_handler parse_query parse_int old method raw_query).0 ≡ old))
  unfolding config_pushers_handler set_pusher_max
  config_pushers_handler_iff old new method raw_query = (
    (
      ground (arith, eq_iff method "PUT"),
      λ a.
          rw (a.method_put, a.parsed)
            (((set_pusher_max_iff old new (max_value a.values)).1 (a.given, a.number, a.nonneg))),
    ),
    elim (Bool-cases (str_eq method "PUT")) [
      | inr other ↦ inr (ground (arith, other))
      | inl put ↦ elim (Result-cases (parse_query raw_query)) [
        | inr (text, unparsed) ↦ inr (ground (arith, put, unparsed))
        | inl (values, parsed) ↦ rw (put, parsed) (set_pusher_max-cases old (max_value values))
      ]
    ],
  )
