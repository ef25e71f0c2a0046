-- ===== src/Notification/Answers.antt =====
-- About the answers of POST /push, gaurun/notification.go.
use gaurun.Prelude.{
  pos, ◌≡◌, ◌≢◌, ◌<◌, ◌⊎◌, refl, arith, ◌≤ℤ◌, String, List, [], ◌∷◌, none, some, str_eq, eq_iff,
  eq_ℤ, ltb_ℤ, length, inl, inr, Bool-cases,
}
use gaurun.Http.{response, Result, ok, Result-cases}
use gaurun.Conf.{ConfToml}
use gaurun.Notification.{Notification}
use gaurun.Notification.Handler.{Request, Outcome, check_count, parse, push_notification_handler}

-- As many notifications as a request may have.
abbrev pub IsInRange : ConfToml → List Notification → Type 0
IsInRange conf ns = (0 < length ns) × (pos (length ns) ≤ℤ conf.core.notification_max)

-- What is accepted is given to `enqueueNotifications`, what is refused is not.
abbrev pub IsAccepted : Outcome → List Notification → Type 0
IsAccepted out ns = (out.enqueue ≡ some ns) × (out.answer ≡ response "ok" 200)

abbrev pub IsRefused : Outcome → Type 0
IsRefused out = (out.enqueue ≡ none) × ((out.answer.code ≡ 400) ⊎ (out.answer.code ≡ 500))

check_count-cases :
    (conf : ConfToml) (ns : List Notification)
    → (IsInRange conf ns × IsAccepted (check_count conf ns) ns)
      ⊎ (¬ (IsInRange conf ns) × IsRefused (check_count conf ns))
unfolding check_count
check_count-cases conf [] = ground arith
check_count-cases conf (n ∷ ns) =
    elim (Bool-cases (ltb_ℤ conf.core.notification_max (pos (length (n ∷ ns))))) [
      | inl over ↦ inr (λ h. absurd (ground (arith, over, h.1)), rw over (refl, inl refl))
      | inr fits ↦ inl ((omega arith, ground (arith, fits)), rw fits (refl, refl))
    ]

module _ {Body : Type 0} (read_all : Body → Result String)
    (unmarshal : String → Result (List Notification))
    (decode : Body → Result (List Notification)) where
  -- What a request needs to be accepted with these notifications.
  abbrev pub IsGood : ConfToml → Request Body → List Notification → Type 0
  IsGood conf r ns =
      (r.method ≡ "POST")
      × (r.content_length ≢ pos 0)
      × (parse read_all unmarshal decode conf r.body ≡ ok (ok ns))
      × IsInRange conf ns

  -- POST /push answers 200 and starts `enqueueNotifications` with the notifications of the body if
  -- the method is POST, the length is not 0, the body is read and parsed, and it has between 1 and
  -- `notification_max` notifications; any other request is answered 400 or 500, and nothing is
  -- enqueued for it.
  pub push_notification_handler-cases :
      (conf : ConfToml) (r : Request Body)
      → let out = push_notification_handler read_all unmarshal decode conf r in
        (((ns : List Notification) × IsGood conf r ns × IsAccepted out ns)
          ⊎ (((ns : List Notification) → ¬ (IsGood conf r ns)) × IsRefused out))
  unfolding push_notification_handler
  push_notification_handler-cases conf r = elim (Bool-cases (str_eq r.method "POST")) [
    | inr other ↦ inr (
      λ ns good. absurd (ground (arith, other, eq_iff r.method "POST", good.0)),
      rw other (refl, inl refl),
    )
    | inl post ↦ elim (Bool-cases (eq_ℤ r.content_length (pos 0))) [
      | inl empty ↦
          inr (λ ns good. absurd (ground (arith, empty, good.1)), rw (post, empty) (refl, inl refl))
      | inr given ↦ elim (Result-cases (parse read_all unmarshal decode conf r.body)) [
        | inr (text, unread) ↦ inr (
          λ ns good. absurd (ground (arith, unread, good.2)),
          rw (post, given, unread) (refl, inr refl),
        )
        | inl (inner, body_read) ↦ elim (Result-cases inner) [
          | inr (text, malformed) ↦ inr (
            λ ns good. absurd (ground (arith, body_read, malformed, good.2)),
            rw (post, given, body_read, malformed) (refl, inl refl),
          )
          | inl (ns, parsed) ↦ elim (check_count-cases conf ns) [
            | inl (within, accepted) ↦ inl (
              ns,
              (
                (eq_iff _ _).0 post,
                ground (arith, given),
                ground (arith, body_read, parsed),
                within,
              ),
              rw (post, given, body_read, parsed) accepted,
            )
            | inr (outside, refused) ↦ inr (
              λ ns' good.
                  let same : ns' ≡ ns = ground (arith, good.2, body_read, parsed) in
                  outside (rw same at good.3),
              rw (post, given, body_read, parsed) refused,
            )
          ]
        ]
      ]
    ]
  ]
