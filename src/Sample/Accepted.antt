-- ===== src/Sample/Accepted.antt =====
-- The request of samples/client.go as the server takes it.
use gaurun.Prelude.{
  ℕ, pos, ◌≡◌, ◌≢◌, ◌⊎◌, refl, inl, inr, arith, String, false, List, [], ◌∷◌, length, ◌<◌, map,
  some, none, All, is_empty, is_empty_iff, Bool-cases, lookup, eq_ℤ,
}
use gaurun.Http.{Result, ok, response}
use gaurun.Conf.{build_default_conf}
use gaurun.Notification.{Notification}
use gaurun.Notification.Validate.{has_empty_token, validate_notification}
use gaurun.Notification.Handler.{Request, check_count, parse, push_notification_handler}
use gaurun.Sample.{build, to_fields, of_fields, for_ios, for_android, zero_notification}

-- What the server reads of the client's notifications.
unfoldable pub received : (ios_token android_token : String) → List Notification
received ios_token android_token =
    map (λ n. of_fields (to_fields n)) (build ios_token android_token)

-- An accepted notification
abbrev pub IsValid : Notification → Type 0
IsValid n = validate_notification false n ≡ none

for_ios-IsValid : (token : String) → token ≢ "" → IsValid (of_fields (to_fields (for_ios token)))
unfolding of_fields to_fields for_ios zero_notification validate_notification has_empty_token lookup
for_ios-IsValid token given = ground (arith, is_empty_iff token, given)

for_android-IsValid :
    (token : String) → token ≢ "" → IsValid (of_fields (to_fields (for_android token)))
unfolding of_fields to_fields for_android zero_notification validate_notification has_empty_token
    lookup
for_android-IsValid token given = ground (arith, is_empty_iff token, given)

received-cases :
    (ios_token android_token : String)
    → (ios_token ≢ "") ⊎ (android_token ≢ "")
    → (n : Notification) × (ns : List Notification) × (received ios_token android_token ≡ n ∷ ns)
      × (length ns < 2)
      × All IsValid (n ∷ ns)
unfolding received build
received-cases ios_token android_token given = elim (Bool-cases (is_empty ios_token)) [
  | inl no_ios ↦ elim (Bool-cases (is_empty android_token)) [
    | inl no_android ↦ absurd (
        ground
          (arith, no_ios, no_android, given, is_empty_iff ios_token, is_empty_iff android_token))
    | inr android ↦ (
      _,
      [],
      simp (no_ios, android) refl,
      omega arith,
      (for_android-IsValid android_token (ground (arith, android, is_empty_iff android_token)), tt),
    )
  ]
  | inr ios ↦
      let valid = for_ios-IsValid ios_token (ground (arith, ios, is_empty_iff ios_token)) in
      elim (Bool-cases (is_empty android_token)) [
        | inl no_android ↦ (_, [], simp (ios, no_android) refl, omega arith, (valid, tt))
        | inr android ↦ (
          _,
          _ ∷ [],
          simp (ios, android) refl,
          omega arith,
          (
            valid,
            (
              for_android-IsValid android_token
                  (ground (arith, android, is_empty_iff android_token)),
              tt,
            ),
          ),
        )
      ]
]

check_count-few :
    (num_cpu : ℕ) (n : Notification) (ns : List Notification)
    → length ns < 2
    → check_count (build_default_conf num_cpu) (n ∷ ns)
      ≡ record { answer = response "ok" 200; enqueue = some (n ∷ ns) }
unfolding check_count build_default_conf
check_count-few num_cpu n ns few = ground (arith, few)

module _ {Body : Type 0} (read_all : Body → Result String)
    (unmarshal : String → Result (List Notification))
    (decode : Body → Result (List Notification)) where
  -- With a token for one platform or for both, the request of the sample client is accepted by a
  -- server with the default configuration, and each of its notifications passes the validation, if
  -- it is sent by POST with its length and the server decodes the fields as they were encoded.
  pub sample_accepted :
      (num_cpu : ℕ) (ios_token android_token : String) (r : Request Body)
      → (ios_token ≢ "") ⊎ (android_token ≢ "")
      → r.method ≡ "POST"
      → r.content_length ≢ pos 0
      → decode r.body ≡ ok (received ios_token android_token)
      → (push_notification_handler read_all unmarshal decode (build_default_conf num_cpu) r
          ≡ record {
            answer = response "ok" 200;
            enqueue = some (received ios_token android_token);
          })
        × All IsValid (received ios_token android_token)
  unfolding push_notification_handler parse build_default_conf
  sample_accepted num_cpu ios_token android_token r given post length_given decoded =
      let (n, ns, e, few, valid) = received-cases ios_token android_token given in
      let nonzero : eq_ℤ r.content_length (pos 0) ≡ false = ground (arith, length_given) in
      (simp (post, nonzero, decoded, e) (check_count-few num_cpu n ns few), rw e valid)
