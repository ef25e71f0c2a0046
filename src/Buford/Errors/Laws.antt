-- ===== src/Buford/Errors/Laws.antt =====
-- About the reasons of buford/push/errors.go.
use gaurun.Prelude.{
  String, ◌≡◌, refl, ◌↔◌, Bool, true, ◌&&◌, List, [], ◌∷◌, Option, none, some, arith, str_eq,
  eq_iff, lookup,
}
use gaurun.Buford.Errors.{
  Sentinel, bad_message_id, payload_empty, Reason, sentinel, new, sentinel_text, reason_cases,
  map_error_reason,
}

-- The reason by which Apple names an error: the text of its variable, but for one letter.
abbrev pub apple_reason : Sentinel → String
apple_reason bad_message_id = "BadMessageId"
apple_reason s = sentinel_text s

-- Does every case of the table stand under its own reason?
agrees : List (String × Sentinel) → Bool
agrees [] = true
agrees ((k, v) ∷ cases) = str_eq k (apple_reason v) && agrees cases

lookup_sound :
    (r : String) (s : Sentinel) (cases : List (String × Sentinel))
    → agrees cases ≡ true
    → lookup r cases ≡ some s
    → r ≡ apple_reason s
unfolding lookup agrees
lookup_sound r s [] h e = cc
lookup_sound r s ((k, v) ∷ cases) h e =
    ground (arith, eq_iff r k, eq_iff k (apple_reason v), lookup_sound r s cases)

reason_cases_agree : agrees reason_cases ≡ true
unfolding agrees sentinel_text
reason_cases_agree = refl

apple_reason-known : (s : Sentinel) → map_error_reason (apple_reason s) ≡ sentinel s
unfolding map_error_reason sentinel_text lookup
apple_reason-known payload_empty = refl
apple_reason-known _ = refl

-- `mapErrorReason` yields a given error variable for exactly one text, the reason that Apple sends
-- for it; so no two variables are mixed up, and a text that is no such reason gives a fresh error.
pub map_error_reason_iff :
    (r : String) (s : Sentinel) → (map_error_reason r ≡ sentinel s) ↔ (r ≡ apple_reason s)
unfolding map_error_reason
map_error_reason_iff r s = (
  λ e. lookup_sound r s reason_cases reason_cases_agree (known (lookup r reason_cases) refl e),
  λ e. rw e (apple_reason-known s),
)
  where
    known :
        (o : Option Sentinel)
        → lookup r reason_cases ≡ o
        → (elim o as (λ _. Reason) [ some x ↦ sentinel x | none ↦ new r ]) ≡ sentinel s
        → lookup r reason_cases ≡ some s
    known none p e = cc
    known (some x) p e = cc
