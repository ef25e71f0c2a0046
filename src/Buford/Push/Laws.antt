-- ===== src/Buford/Push/Laws.antt =====
-- About the requests of buford/push/header.go and service.go.
use gaurun.Prelude.{
  ℤ, ◌≤◌, ◌≡◌, ◌↔◌, ◌++ˢ◌, inl, inr, Bool-cases, Option-cases, ltb, refl, arith, String, Bool, true,
  false, not, ◌&&◌, Option, none, some, is_empty, lookup, lookup-insert, str_eq, if◌then◌else◌,
}
use Prim.Native.String.{len}
use gaurun.Http.{Result, ok, err}
use gaurun.Buford.Push.{Reply, Outside}
use gaurun.Buford.Token.{Token, generate_bearer_if_expired}
use gaurun.Buford.Push.Service.{
  sent, max_payload, header_value, read_reply, device_url, prepare, deliver, push,
}
use gaurun.Buford.Push.Header.{
  Headers, Http, format_int, set, authorize, set_plain, set_when, set_expiration,
}

-- The expiration as a text, left out at Go's zero time.
abbrev expires : Option ℤ → Bool
expires none = false
expires (some t) = true

abbrev expiry_text : Option ℤ → String
expiry_text none = ""
expiry_text (some t) = format_int t

-- What stands under a name, given what stood there before.
unfoldable pub described : Headers → String → Option String → Option String
described h asked before =
    if str_eq asked "apns-push-type" && not (is_empty h.push_type)
    then some h.push_type
    else if str_eq asked "apns-topic" && not (is_empty h.topic)
    then some h.topic
    else if str_eq asked "apns-priority" && h.low_priority
    then some "5"
    else if str_eq asked "apns-expiration" && expires h.expiration
    then some (expiry_text h.expiration)
    else if str_eq asked "apns-collapse-id" && not (is_empty h.collapse_id)
    then some h.collapse_id
    else if str_eq asked "apns-id" && not (is_empty h.id)
    then some h.id
    else before

lookup-set_when :
    (c : Bool) (asked name value : String) (req : Http)
    → lookup asked (set_when c name value req)
      ≡ (if str_eq asked name && c then some value else lookup asked req)
lookup-set_when true asked name value req = ground (arith, lookup-insert asked name value req)
lookup-set_when false asked name value req = ground arith

lookup-set_expiration :
    (t : Option ℤ) (asked : String) (req : Http)
    → lookup asked (set_expiration t req) ≡ (
        if str_eq asked "apns-expiration" && expires t
        then some (expiry_text t)
        else lookup asked req)
unfolding set_expiration
lookup-set_expiration none asked req = ground arith
lookup-set_expiration (some t) asked req =
    ground (arith, lookup-insert asked "apns-expiration" (format_int t) req)

lookup-set_plain :
    (h : Headers) (asked : String) (req : Http)
    → lookup asked (set_plain h req) ≡ described h asked (lookup asked req)
unfolding set_plain described
lookup-set_plain h asked req = simp (lookup-set_when, lookup-set_expiration) refl

module _ {E Key : Type 0} (o : Outside E Key) where
  -- Every header of a request after `set`: the authorization is the bearer of the client's token,
  -- signed anew if it has expired; the others are the fields that are not empty, the priority 5 for
  -- a push of low priority and the expiration in seconds; a header of any other name is as before.
  pub set-eq-described :
      (h : Headers) (t : Token Key) (e : E) (req : Http) (asked : String)
      → lookup asked (set o (some h) (some t) e req).0 ≡ (
          if str_eq asked "authorization" && h.auth_token
          then some ("bearer " ++ˢ (generate_bearer_if_expired o.now o.sign t e).0)
          else described h asked (lookup asked req))
  unfolding set authorize
  set-eq-described h t e req asked = elim (Bool-cases h.auth_token) [
    | inl authorized ↦ ground (
      arith,
      authorized,
      lookup-insert asked "authorization"
          ("bearer " ++ˢ (generate_bearer_if_expired o.now o.sign t e).0) (set_plain h req),
      lookup-set_plain h asked req,
    )
    | inr plain ↦ ground (arith, plain, lookup-set_plain h asked req)
  ]

  read_reply-sent_iff :
      (answer : Result Reply) (id : String)
      → (read_reply o answer ≡ sent id) ↔ (
          (reply : Reply) × (answer ≡ ok reply)
          × (reply.status_code ≡ 200)
          × (header_value "apns-id" reply.headers ≡ id))
  unfolding read_reply
  read_reply-sent_iff (err text) id =
      (λ p. absurd (ground (arith, p)), λ (reply, p, _, _). absurd (ground (arith, p)))
  read_reply-sent_iff (ok reply) id = (
    λ p. (reply, refl, ground (arith, p), ground (arith, p)),
    λ (found, same, status, named).
        let p : reply ≡ found = ground (arith, same) in rw p (ground (arith, status, named)),
  )

  -- A push succeeds with an id exactly if the payload is within 4096 bytes, the URL is accepted,
  -- and the service answers the request with status 200 and that id.
  pub push-sent_iff :
      (host device_token : String) (headers : Option Headers) (payload : String)
      (t : Option (Token Key)) (e : E) (id : String)
      → let (request, t', e') = prepare o host device_token headers payload t e in
        (((push o host device_token headers payload t e).0 ≡ sent id) ↔ (
          (len payload ≤ max_payload)
          × (o.check_url (device_url o host device_token) ≡ none)
          × ((reply : Reply) × ((o.round_trip request e').0 ≡ ok reply)
              × (reply.status_code ≡ 200)
              × (header_value "apns-id" reply.headers ≡ id))))
  unfolding push deliver
  push-sent_iff host device_token headers payload t e id =
      let (request, t', e') = prepare o host device_token headers payload t e in
      elim (Bool-cases (ltb max_payload (len payload))) [
        | inl large ↦ (
          λ p. absurd (ground (arith, large, p)),
          λ (fits, _, _). absurd (ground (arith, large, fits)),
        )
        | inr fits ↦ elim (Option-cases (o.check_url (device_url o host device_token))) [
          | inl good ↦
              let (there, back) = read_reply-sent_iff (o.round_trip request e').0 id in
              (
                λ p. (ground (arith, fits), good, there (ground (arith, fits, good, p))),
                λ (_, _, answered). rw (fits, good) (back answered),
              )
          | inr (text, bad) ↦ (
            λ p. absurd (ground (arith, fits, bad, p)),
            λ (_, good, _). absurd (ground (arith, good, bad)),
          )
        ]
      ]
