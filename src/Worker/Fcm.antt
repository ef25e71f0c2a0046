-- ===== src/Worker/Fcm.antt =====
-- Which answers of FCM are retried: `isExternalServerError` of gaurun/worker.go on the errors that
-- gcm/client.go makes of a status that is not 200.
use gaurun.Prelude.{
  ℕ, zero, suc, ℤ, ◌/◌, ◌%◌, ◌≡◌, ◌≢◌, refl, ap, String, ◌++ˢ◌, false, List, [], ◌∷◌, ◌++◌, Option,
  arith, All, All-append, codes, codes-append, occurs_in, contains, show_ℕ, digit, digits, str_eq,
  eq_iff, Bool-cases, inl, inr, ltb,
}
use gaurun.Notification.{platform_android}
use gaurun.Buford.Errors.{plain, new, error_message, reason_text}
use gaurun.Gcm.Client.{status_error}
use gaurun.Worker.{is_external_server_error}

-- A text without the letter T, as code points.
abbrev NoT : List ℕ → Type 0
NoT = All (λ c. c ≢ b'T')

digit-NoT : (n : ℕ) → NoT (codes (digit n))
unfolding digit
digit-NoT zero = omega arith
digit-NoT (suc zero) = omega arith
digit-NoT (suc (suc zero)) = omega arith
digit-NoT (suc (suc (suc zero))) = omega arith
digit-NoT (suc (suc (suc (suc zero)))) = omega arith
digit-NoT (suc (suc (suc (suc (suc zero))))) = omega arith
digit-NoT (suc (suc (suc (suc (suc (suc zero)))))) = omega arith
digit-NoT (suc (suc (suc (suc (suc (suc (suc zero))))))) = omega arith
digit-NoT (suc (suc (suc (suc (suc (suc (suc (suc zero)))))))) = omega arith
digit-NoT (suc (suc (suc (suc (suc (suc (suc (suc (suc n))))))))) = omega arith

digits-NoT : (fuel n : ℕ) → NoT (codes (digits fuel n))
unfolding digits
digits-NoT zero n = tt
digits-NoT (suc fuel) n = elim (Bool-cases (ltb n 10)) [
  | inl one ↦ rw one (digit-NoT n)
  | inr more ↦
      rw (more, codes-append (digits fuel (n / 10)) (digit (n % 10)))
        (All-append (λ c. c ≢ b'T') (codes (digits fuel (n / 10))) (codes (digit (n % 10)))
          (digits-NoT fuel (n / 10)) (digit-NoT (n % 10)))
]

-- "Timeout" does not begin in a text without T.
occurs_in-append :
    (xs ys : List ℕ)
    → NoT xs
    → occurs_in (codes "Timeout") (xs ++ ys) ≡ occurs_in (codes "Timeout") ys
occurs_in-append [] ys h = refl
occurs_in-append (x ∷ xs) ys h = ground (arith, h.0, occurs_in-append xs ys h.1)

-- What stands before the status in the error's text.
abbrev prefix : String
prefix = "invalid status code "

abbrev head_of : ℕ → String
head_of code = (prefix ++ˢ show_ℕ code) ++ˢ ": "

head_of-NoT : (code : ℕ) → NoT (codes (head_of code))
unfolding show_ℕ
head_of-NoT code =
    rw (codes-append (prefix ++ˢ show_ℕ code) ": ", codes-append prefix (show_ℕ code))
      (All-append (λ c. c ≢ b'T') (codes prefix ++ codes (show_ℕ code)) (codes ": ")
        (All-append (λ c. c ≢ b'T') (codes prefix) (codes (show_ℕ code)) (omega arith)
          (digits-NoT (suc code) code))
        (omega arith))

contains-status_error :
    (code : ℕ) (status : String)
    → contains (status_error code status) "Timeout" ≡ contains status "Timeout"
unfolding contains status_error
contains-status_error code status =
    rw (codes-append (head_of code) status)
      (occurs_in-append (codes (head_of code)) (codes status) (head_of-NoT code))

-- The text is neither of the two words: it begins with an i.
status_error-ne :
    (code : ℕ) (status word : String) (first : ℕ) (rest : List ℕ)
    → codes word ≡ first ∷ rest
    → first ≢ b'i'
    → str_eq (status_error code status) word ≡ false
unfolding status_error
status_error-ne code status word first rest e other =
    elim (Bool-cases (str_eq (head_of code ++ˢ status) word)) [
      | inr differ ↦ differ
      | inl same ↦
          let p : codes (head_of code ++ˢ status) ≡ codes word = ap codes ((eq_iff _ _).0 same) in
          let q =
            rw
              (
                codes-append (head_of code) status,
                codes-append (prefix ++ˢ show_ℕ code) ": ",
                codes-append prefix (show_ℕ code),
              )
              at p in
          absurd (ground (arith, q, e, other))
    ]

-- A status other than 200 from FCM leads to a retry exactly if its text contains "Timeout",
-- whatever its code; so "503 Service Unavailable" and "500 Internal Server Error" do not.
pub fcm_retry_iff :
    (show_time : Option ℤ → String) (code : ℕ) (status : String)
    → is_external_server_error show_time (plain (new (status_error code status))) platform_android
      ≡ contains status "Timeout"
unfolding is_external_server_error error_message reason_text
fcm_retry_iff show_time code status =
    rw
      (
        status_error-ne code status "Unavailable" _ _ refl (omega arith),
        status_error-ne code status "InternalServerError" _ _ refl (omega arith),
      )
      (contains-status_error code status)
