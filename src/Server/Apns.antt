-- ===== src/Server/Apns.antt =====
-- gaurun/apns_http2.go: the clients for Apple's service. Files, PEM blocks, X.509 and TLS are
-- parameters: a block `B`, a certificate `Cert`, a key `Key`. A fault at a nil block is a value.
use gaurun.Prelude.{
  ℤ, pos, String, ◌++ˢ◌, Bool, true, not, Option, none, some, ◌*ℤ◌, ◌^◌, is_empty, to_int64,
  if◌then◌else◌,
}
use gaurun.Http.{Result, ok, err}
use gaurun.Conf.{SectionIos}
use gaurun.Buford.Token.{Token}
use gaurun.Server.{keep_alive_interval}

-- `time.Duration(n) * time.Second`, in nanoseconds
abbrev pub seconds : ℤ → ℤ
seconds n = to_int64 (n *ℤ pos (10 ^ 9))

-- What is set of an `http.Transport` and its dialer.
pub record Transport (Cert : Type 0) : Type 0 where
  pub certificate : Option Cert
  pub max_idle_conns_per_host : ℤ
  pub dial_timeout : ℤ
  pub dial_keep_alive : ℤ
  pub idle_conn_timeout : ℤ
  pub force_attempt_http2 : Bool

pub record HttpClient (Cert : Type 0) : Type 0 where
  pub transport : Transport Cert
  pub timeout : ℤ

-- `APNsClient`
pub record ApnsClient (Cert Key : Type 0) : Type 0 where
  pub http_client : HttpClient Cert
  pub token : Option (Token Key)

pub data Loaded (A : Type 0) : Type 0 where
  loaded : A → Loaded A
  fault : Loaded A

-- The settings that the transports for both providers share.
transport_with : {Cert : Type 0} → Option Cert → SectionIos → Transport Cert
transport_with certificate ios = record {
  certificate = certificate;
  max_idle_conns_per_host = ios.keep_alive_conns;
  dial_timeout = seconds ios.timeout;
  dial_keep_alive = seconds (keep_alive_interval ios.keep_alive_timeout);
  idle_conn_timeout = seconds ios.keep_alive_timeout;
  force_attempt_http2 = true;
}

-- `NewTransportHttp2`
unfoldable pub new_transport : {Cert : Type 0} → SectionIos → Cert → Transport Cert
unfolding transport_with
new_transport ios cert = transport_with (some cert) ios

-- `NewApnsClientHttp2ForToken`
unfoldable pub new_apns_client_for_token :
    {Cert Key : Type 0} → SectionIos → Key → (key_id team_id : String) → ApnsClient Cert Key
unfolding transport_with
new_apns_client_for_token ios auth_key key_id team_id = record {
  http_client = record { transport = transport_with none ios; timeout = seconds ios.timeout };
  token = some (record {
    auth_key = some auth_key;
    key_id = key_id;
    team_id = team_id;
    issued_at = 0;
    bearer = "";
  });
}

module _ {B Cert : Type 0} (read_file : String → Result String) (pem_decode : String → Option B)
    (is_encrypted_pem_block : B → Bool) (decrypt_pem_block : B → String → Result String)
    (encode_to_memory : B → String → String)
    (x509_key_pair : (cert_pem key_pem : String) → Result Cert) where
  unfoldable pub decrypted : (key_path passphrase : String) → Option B → Result (Loaded String)
  decrypted key_path passphrase none = ok fault
  decrypted key_path passphrase (some block) =
      if not (is_encrypted_pem_block block)
      then err (key_path ++ˢ " is not encrypted. passphrase is not required")
      else elim (decrypt_pem_block block passphrase) [
        | err e ↦ err e
        | ok bytes ↦ ok (loaded (encode_to_memory block bytes))
      ]

  unfoldable pub key_block : (key_path passphrase key_pem : String) → Result (Loaded String)
  unfolding decrypted
  key_block key_path passphrase key_pem =
      if not (is_empty passphrase)
      then decrypted key_path passphrase (pem_decode key_pem)
      else ok (loaded key_pem)

  unfoldable pub pair_with : (cert_path : String) → Loaded String → Result (Loaded Cert)
  pair_with cert_path fault = ok fault
  pair_with cert_path (loaded key_pem) = elim (read_file cert_path) [
    | err e ↦ err e
    | ok cert_pem ↦ elim (x509_key_pair cert_pem key_pem) [
      | err e ↦ err e
      | ok cert ↦ ok (loaded cert)
    ]
  ]

  -- `loadX509KeyPairWithPassword`
  unfoldable pub load_x509_key_pair_with_password :
      (cert_path key_path passphrase : String) → Result (Loaded Cert)
  unfolding key_block pair_with
  load_x509_key_pair_with_password cert_path key_path passphrase = elim (read_file key_path) [
    | err e ↦ err e
    | ok key_pem ↦ elim (key_block key_path passphrase key_pem) [
      | err e ↦ err e
      | ok block ↦ pair_with cert_path block
    ]
  ]

  unfoldable pub client_with :
      {Key : Type 0} → SectionIos → Loaded Cert → Loaded (ApnsClient Cert Key)
  client_with ios fault = fault
  client_with ios (loaded cert) = loaded (record {
    http_client = record { transport = new_transport ios cert; timeout = seconds ios.timeout };
    token = none;
  })

  -- `NewApnsClientHttp2`
  unfoldable pub new_apns_client :
      {Key : Type 0}
      → SectionIos
      → (cert_path key_path passphrase : String) → Result (Loaded (ApnsClient Cert Key))
  unfolding client_with
  new_apns_client ios cert_path key_path passphrase =
      elim (load_x509_key_pair_with_password cert_path key_path passphrase) [
        | err e ↦ err e
        | ok cert ↦ ok (client_with ios cert)
      ]
