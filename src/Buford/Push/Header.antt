-- ===== src/Buford/Push/Header.antt =====
-- buford/push/header.go. `http.Header.Set` replaces the value of a name; names are kept as they are
-- written (Go keeps them in a canonical case, and none of these differ only by case).
use gaurun.Prelude.{
  ℤ, pos, negsuc, suc, String, ◌++ˢ◌, Bool, true, false, not, List, Option, none, some, is_empty,
  insert, show_ℕ,
}
use gaurun.Buford.Push.{Outside}
use gaurun.Buford.Token.{Token, generate_bearer_if_expired}

abbrev pub push_type_alert : String
push_type_alert = "alert"

abbrev pub push_type_background : String
push_type_background = "background"

-- `Headers`. `expiration` is in seconds since 1970, none for Go's zero time. The pointer
-- `AuthToken` is nil or the client's one token, which the state holds: `auth_token` says which.
pub record Headers : Type 0 where
  pub id : String
  pub collapse_id : String
  pub expiration : Option ℤ
  pub low_priority : Bool
  pub topic : String
  pub auth_token : Bool
  pub push_type : String

-- `strconv.FormatInt(n, 10)`
unfoldable pub format_int : ℤ → String
format_int (pos n) = show_ℕ n
format_int (negsuc n) = "-" ++ˢ show_ℕ (suc n)

abbrev pub Http : Type 0
Http = List (String × String)

abbrev pub set_when : Bool → String → String → Http → Http
set_when true name value h = insert name value h
set_when false name value h = h

unfoldable pub set_expiration : Option ℤ → Http → Http
set_expiration none h = h
set_expiration (some t) h = insert "apns-expiration" (format_int t) h

-- All headers but the authorization.
unfoldable pub set_plain : Headers → Http → Http
set_plain h req = set_when (not (is_empty h.push_type)) "apns-push-type" h.push_type (
    set_when (not (is_empty h.topic)) "apns-topic" h.topic (
      set_when h.low_priority "apns-priority" "5" (
        set_expiration h.expiration (
          set_when (not (is_empty h.collapse_id)) "apns-collapse-id" h.collapse_id
            (set_when (not (is_empty h.id)) "apns-id" h.id req)))))

module _ {E Key : Type 0} (o : Outside E Key) where
  -- The last `if` of `set`: the bearer is made anew when it has expired.
  unfoldable pub authorize : Bool → Option (Token Key) → E → Http → Http × Option (Token Key) × E
  authorize true (some t) e req =
      let (bearer, t', e') = generate_bearer_if_expired o.now o.sign t e in
      (insert "authorization" ("bearer " ++ˢ bearer) req, some t', e')
  authorize _ t e req = (req, t, e)

  -- `set`; a nil receiver is `none`.
  unfoldable pub set :
      Option Headers → Option (Token Key) → E → Http → Http × Option (Token Key) × E
  unfolding authorize
  set none t e req = (req, t, e)
  set (some h) t e req = authorize h.auth_token t e (set_plain h req)
