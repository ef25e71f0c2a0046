-- ===== src/Server/Needs.antt =====
-- What the logs and the clients need at the start of cmd/gaurun/gaurun.go.
use text.Mathlib.TextLemmas.{append-ne-nil_of_right_ne-nil}
use gaurun.Prelude.{
  ◌≡◌, ◌≢◌, ◌↔◌, ◌⊎◌, refl, arith, ◌++ˢ◌, inl, inr, String, str_eq, is_empty, is_empty_iff, true,
  false, Option, none, some, Bool-cases,
}
use gaurun.Http.{ok, Result-cases}
use gaurun.Conf.{SectionAndroid, SectionIos, is_certificate_based_provider}
use gaurun.Gcm.Client.{new_client, make_fcm_send_endpoint}
use gaurun.Log.Setup.{Logging, init_log, writer_of}
use gaurun.Server.{init_apns_client, with_key}
use gaurun.Server.Laws.{IsProvided, loads}
use gaurun.Server.Apns.{
  ApnsClient, loaded, seconds, new_transport, new_apns_client_for_token,
  load_x509_key_pair_with_password, new_apns_client, client_with,
}
use gaurun.Server.Fcm.{FcmClient, init_gcm_client}
use gaurun.Server.Main.{Machine, apns_result}
use gaurun.Server.Ready.{HasFcm, HasApns}

module _ {Level B Cert Key : Type 0} (m : Machine Level B Cert Key) where
  -- A log goes to one of three fixed places or to a file that can be opened, and its level is known.
  abbrev pub CanLog : (out level : String) → Type 0
  CanLog out level =
      ((str_eq out "stdout" ≡ true)
        ⊎ (str_eq out "stderr" ≡ true)
        ⊎ (str_eq out "discard" ≡ true)
        ⊎ (m.new_file_writer out 420 ≡ none))
      × (loads (m.unmarshal_level level) ≡ true)

  abbrev pub CanSend : SectionAndroid → Type 0
  CanSend android =
      (android.enabled ≡ false)
      ⊎ ((android.api_key ≢ "") × (m.parse_url (make_fcm_send_endpoint android.project_id) ≡ none))

  -- The certificate with its key, for a provider of certificates; the key of a token has been read
  -- by the checks.
  abbrev pub CanPush : SectionIos → Type 0
  CanPush ios =
      (is_certificate_based_provider ios ≡ false)
      ⊎ ((cert : Cert) × (load_x509_key_pair_with_password m.read_file m.pem_decode
              m.is_encrypted_pem_block m.decrypt_pem_block m.encode_to_memory m.x509_key_pair
              ios.pem_cert_path ios.pem_key_path ios.pem_key_passphrase
            ≡ ok (loaded cert)))

  pub init_log_iff :
      (out level : String)
      → ((a : Logging Level) × (init_log m.new_file_writer m.unmarshal_level out level ≡ ok a))
        ↔ CanLog out level
  unfolding init_log writer_of
  init_log_iff out level = (
    λ made. ground (arith, made.1),
    λ can. elim (Result-cases (m.unmarshal_level level)) [
      | inr (text, unknown) ↦ absurd (ground (arith, can, unknown))
      | inl (lowest, known) ↦
          let logging = init_log m.new_file_writer m.unmarshal_level out level in
          elim (Result-cases logging) [
            | inl made ↦ made
            | inr (text, failed) ↦ absurd (ground (arith, can, known, failed))
          ]
    ],
  )

  endpoint_given : (project_id : String) → is_empty (make_fcm_send_endpoint project_id) ≡ false
  unfolding make_fcm_send_endpoint
  endpoint_given project_id =
      let ne : ◌≢◌ {A = String} "/messages:send" "" = λ e. cc e in
      let head = "https://fcm.googleapis.com/v1/projects/" ++ˢ project_id in
      ground (
        arith,
        is_empty_iff (head ++ˢ "/messages:send"),
        append-ne-nil_of_right_ne-nil head {t = "/messages:send"} ne,
      )

  pub fcm_iff :
      (android : SectionAndroid)
      → ((client : Option FcmClient) × HasFcm m android client) ↔ CanSend android
  unfolding init_gcm_client new_client
  fcm_iff android = (
    λ (client, has). ground (arith, has, is_empty_iff android.api_key),
    λ can. elim can [
      | inl off ↦ (none, inl (off, refl))
      | inr (key, url) ↦ elim (Bool-cases android.enabled) [
        | inr off ↦ (none, inl (off, refl))
        | inl on ↦ elim (Result-cases (init_gcm_client m.parse_url m.quote android)) [
          | inl (client, made) ↦ (some client, inr (client, on, refl, made))
          | inr (text, failed) ↦ absurd (
              ground (
                arith,
                failed,
                key,
                url,
                is_empty_iff android.api_key,
                endpoint_given android.project_id,
              ))
        ]
      ]
    ],
  )

  apns_made :
      (ios : SectionIos) (made : ApnsClient Cert Key)
      → apns_result m ios ≡ ok (loaded made)
      → CanPush ios
  unfolding apns_result init_apns_client new_apns_client client_with
  apns_made ios made result = elim (Bool-cases (is_certificate_based_provider ios)) [
    | inr token ↦ inl token
    | inl by_cert ↦ ground (arith, by_cert, result)
  ]

  apns_makes :
      (ios : SectionIos)
      → IsProvided m.read_file m.auth_key_from_file ios
      → CanPush ios
      → ((made : ApnsClient Cert Key) × (apns_result m ios ≡ ok (loaded made)))
  unfolding apns_result init_apns_client new_apns_client client_with with_key
  apns_makes ios (inl (by_cert, _, _, _)) (inl token) = absurd (ground (arith, by_cert, token))
  apns_makes ios (inl (by_cert, _, _, _)) (inr (cert, pair)) = (
    record {
      http_client = record { transport = new_transport ios cert; timeout = seconds ios.timeout };
      token = none;
    },
    simp (by_cert, pair, new_apns_client) refl,
  )
  apns_makes ios (inr (no_cert, token, key)) can =
      elim (Result-cases (m.auth_key_from_file ios.token_auth_key_path)) [
        | inr (text, unread) ↦ absurd (ground (arith, key, unread))
        | inl (auth_key, read) ↦ (
          new_apns_client_for_token ios auth_key ios.token_auth_key_id ios.token_auth_team_id,
          rw (no_cert, token, read, with_key) refl,
        )
      ]

  pub apns_iff :
      (ios : SectionIos)
      → (ios.enabled ≡ false) ⊎ IsProvided m.read_file m.auth_key_from_file ios
      → ((client : Option (ApnsClient Cert Key)) × HasApns m ios client)
        ↔ ((ios.enabled ≡ false) ⊎ CanPush ios)
  apns_iff ios provided = (
    λ (client, has). elim has [
      | inl (off, _) ↦ inl off
      | inr (made, on, _, result) ↦ inr (apns_made ios made result)
    ],
    λ can. elim (Bool-cases ios.enabled) [
      | inr off ↦ (none, inl (off, refl))
      | inl on ↦ elim provided [
        | inl off ↦ absurd (ground (arith, on, off))
        | inr given ↦ elim can [
          | inl off ↦ absurd (ground (arith, on, off))
          | inr push ↦
              let (made, result) = apns_makes ios given push in
              (some made, inr (made, on, refl, result))
        ]
      ]
    ],
  )
