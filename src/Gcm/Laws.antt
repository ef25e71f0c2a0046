-- ===== src/Gcm/Laws.antt =====
-- About messages and their sending, gcm/.
use gaurun.Prelude.{
  pos, String, ◌≡◌, ◌≢◌, ◌↔◌, ◌⊎◌, inl, inr, List, [], ◌∷◌, ◌++◌, none, some, ◌≤◌, ◌≤ℤ◌, arith,
  is_empty_iff, eq_iff, length, length-append, ◌+◌, Option-cases,
}
use gaurun.Http.{Result-cases}
use gaurun.Gcm.Message.{Message, max_registration_ids, max_time_to_live, Response, validate}
use gaurun.Gcm.Client.{
  Outside, Client, fault, first_of_all, ids, get_access_token, send_one, send_loop, send_valid,
  send,
}

-- A nil list of registration IDs counts as an empty one.
pub record IsSendable (m : Message) : Type 0 where
  pub some_token : 1 ≤ length (ids m.registration_ids)
  pub few_tokens : length (ids m.registration_ids) ≤ max_registration_ids
  pub ttl_nonneg : pos 0 ≤ℤ m.time_to_live
  pub ttl_bounded : m.time_to_live ≤ℤ pos max_time_to_live
  pub priority : (m.priority ≡ "") ⊎ (m.priority ≡ "high") ⊎ (m.priority ≡ "normal")

-- `validate` finds no error in a message exactly if it has 1 to 1000 registration IDs, its time to
-- live is between 0 and 2419200, and its priority is empty, "high" or "normal".
pub validate_iff : (m : Message) → (validate (some m) ≡ none) ↔ IsSendable m
unfolding validate
validate_iff m =
    ground (arith, is_empty_iff m.priority, eq_iff m.priority "high", eq_iff m.priority "normal")

module _ {E C : Type 0} (o : Outside E C) where
  send_loop-ne-fault :
      (c : Client) (access_token : String) (m : Message) (tokens : List String) (buf : String)
      (e : E) (responses : List Response)
      → 1 ≤ length responses + length tokens
      → (send_loop o c access_token m tokens buf e responses).0 ≢ fault
  unfolding send_loop
  send_loop-ne-fault c a m [] buf e [] h = absurd (omega arith)
  send_loop-ne-fault c a m [] buf e (r ∷ rs) h = unfold first_of_all in (λ p. cc)
  send_loop-ne-fault c a m (t ∷ ts) buf e rs h =
      let s = send_one o c a m t buf e in
      elim (Result-cases s.0) [
        | inr (text, failing) ↦ rw (failing, send_loop) (λ p. cc)
        | inl (r, done) ↦
            rw (done, send_loop)
              (send_loop-ne-fault c a m ts s.1 s.2 (rs ++ r ∷ [])
                (omega (arith, length-append rs (r ∷ []))))
      ]

  -- `Send` never reads `responses[0]` of an empty list, whatever the servers answer.
  pub send-ne-fault :
      (c : Client) (m : Message) (json : String) (e : E) → (send o c m json e).0 ≢ fault
  unfolding send send_valid
  send-ne-fault c m json e = elim (Option-cases (validate (some m))) [
    | inr (text, invalid) ↦ rw (invalid, send) (λ p. cc)
    | inl valid ↦
        rw (valid, send)
          (elim (Result-cases (get_access_token o json e).0) [
            | inr (text, failing) ↦ rw (failing, send_valid) (λ p. cc)
            | inl (t, done) ↦
                rw (done, send_valid)
                  (send_loop-ne-fault c t m (ids m.registration_ids) ""
                    (get_access_token o json e).1 []
                    (omega (arith, ((validate_iff m).0 valid).some_token)))
          ])
  ]
