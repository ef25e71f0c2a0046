-- ===== src/Server/Keys.antt =====
-- About the client for Apple's service with a certificate, gaurun/apns_http2.go.
use gaurun.Prelude.{
  ◌≡◌, ◌≢◌, ◌↔◌, ◌⊎◌, refl, arith, Bool, String, Option, none, inl, inr, is_empty_iff,
}
use gaurun.Http.{Result, ok, Result-cases}
use gaurun.Conf.{SectionIos}
use gaurun.Server.Apns.{
  Loaded, loaded, fault, decrypted, key_block, pair_with, client_with,
  load_x509_key_pair_with_password, new_apns_client,
}

Loaded-cases : {A : Type 0} (l : Loaded A) → (l ≡ fault) ⊎ ((a : A) × (l ≡ loaded a))
Loaded-cases fault = inl refl
Loaded-cases (loaded a) = inr (a, refl)

module _ {B Cert : Type 0} (read_file : String → Result String) (pem_decode : String → Option B)
    (is_encrypted_pem_block : B → Bool) (decrypt_pem_block : B → String → Result String)
    (encode_to_memory : B → String → String)
    (x509_key_pair : (cert_pem key_pem : String) → Result Cert) where
  key_block-fault_iff :
      (key_path passphrase text : String)
      → (key_block read_file pem_decode is_encrypted_pem_block decrypt_pem_block encode_to_memory
            x509_key_pair key_path passphrase text
          ≡ ok fault)
        ↔ ((passphrase ≢ "") × (pem_decode text ≡ none))
  unfolding key_block decrypted
  key_block-fault_iff key_path passphrase text = ground (arith, is_empty_iff passphrase)

  pair_with-ne-fault :
      (cert_path key_pem : String)
      → pair_with read_file pem_decode is_encrypted_pem_block decrypt_pem_block encode_to_memory
          x509_key_pair cert_path
          (loaded key_pem)
        ≢ ok fault
  unfolding pair_with
  pair_with-ne-fault cert_path key_pem = ground arith

  load-fault_iff :
      (cert_path key_path passphrase : String)
      → (load_x509_key_pair_with_password read_file pem_decode is_encrypted_pem_block
            decrypt_pem_block encode_to_memory x509_key_pair cert_path key_path passphrase
          ≡ ok fault)
        ↔ ((passphrase ≢ "")
            × ((text : String) × (read_file key_path ≡ ok text) × (pem_decode text ≡ none)))
  unfolding load_x509_key_pair_with_password
  load-fault_iff cert_path key_path passphrase = elim (Result-cases (read_file key_path)) [
    | inr (text, unread) ↦ ground (arith, unread)
    | inl (text, key_read) ↦
        elim (Result-cases (
          key_block read_file pem_decode is_encrypted_pem_block decrypt_pem_block encode_to_memory
            x509_key_pair key_path passphrase text)) [
              | inr (message, bad) ↦
                  ground (arith, key_read, bad, key_block-fault_iff key_path passphrase text)
              | inl (block, good) ↦ elim (Loaded-cases block) [
                | inl faulty ↦
                    ground
                      (arith, key_read, good, faulty, key_block-fault_iff key_path passphrase text)
                | inr (key_pem, there) ↦ ground (
                  arith,
                  key_read,
                  good,
                  there,
                  key_block-fault_iff key_path passphrase text,
                  pair_with-ne-fault cert_path key_pem,
                )
              ]
            ]
  ]

  -- A fault of `NewApnsClientHttp2` is a nil block: it comes exactly if a passphrase is configured and
  -- the key file is read but holds no PEM block.
  pub new_apns_client-fault_iff :
      {Key : Type 0} (ios : SectionIos) (cert_path key_path passphrase : String)
      → (new_apns_client read_file pem_decode is_encrypted_pem_block decrypt_pem_block
            encode_to_memory x509_key_pair {Key = Key} ios cert_path key_path passphrase
          ≡ ok fault)
        ↔ ((passphrase ≢ "")
            × ((text : String) × (read_file key_path ≡ ok text) × (pem_decode text ≡ none)))
  unfolding new_apns_client client_with
  new_apns_client-fault_iff ios cert_path key_path passphrase =
      ground (arith, load-fault_iff cert_path key_path passphrase)
