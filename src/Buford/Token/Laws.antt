-- ===== src/Buford/Token/Laws.antt =====
-- About the cached signature of buford/token/token.go.
use gaurun.Prelude.{
  ℕ, ◌+◌, ◌≤◌, ◌<◌, ◌≡◌, refl, refl, ◌⊎◌, inl, inr, String, Option, none, some, arith, Bool-cases,
  leb, Option-cases, subst, sym, ◌∙◌,
}
use gaurun.Http.{Result, ok, err, Result-cases}
use gaurun.Buford.Token.{
  Token, token_timeout, unix, expired, generate, generate_bearer_if_expired, store, generate_with,
}

-- A clock that does not go back, by a lower bound `passed` of its readings; signing takes time.
pub record Runs {E Key : Type 0} (now : E → ℕ × E)
    (sign : Key → (key_id team_id : String) → (issued_at : ℕ) → E → Result String × E)
    (passed : E → ℕ) : Type 0 where
  pub reading : (e : E) → passed e ≤ (now e).0
  pub after : (e : E) → (now e).0 ≤ passed (now e).1
  pub signing :
      (key : Key) (key_id team_id : String) (issued_at : ℕ) (e : E)
      → passed e ≤ passed (sign key key_id team_id issued_at e).1

module _ {E Key : Type 0} (now : E → ℕ × E)
    (sign : Key → (key_id team_id : String) → (issued_at : ℕ) → E → Result String × E)
    (passed : E → ℕ) (runs : Runs now sign passed) where
  generate_step :
      (t : Token Key) (e : E)
      → let (result, t', e') = generate now sign t e in
        (((t'.issued_at ≡ t.issued_at) × (t'.bearer ≡ t.bearer)) ⊎ (unix (now e).0 ≡ t'.issued_at))
  unfolding generate generate_with store
  generate_step t e = elim (Option-cases t.auth_key) [
    | inl no_key ↦ ground (arith, no_key)
    | inr (key, given) ↦
        elim (Result-cases (sign key t.key_id t.team_id (unix (now e).0) (now e).1).0) [
          | inl (bearer, signed) ↦ ground (arith, given, signed)
          | inr (text, failed) ↦ ground (arith, given, failed)
        ]
  ]

  generate_holder :
      (t : Token Key) (e : E)
      → let t' = (generate now sign t e).1 in
        ((t'.auth_key ≡ t.auth_key) × (t'.key_id ≡ t.key_id) × (t'.team_id ≡ t.team_id))
  unfolding generate generate_with store
  generate_holder t e = elim (Option-cases t.auth_key) [
    | inl no_key ↦ ground (arith, no_key)
    | inr (key, given) ↦
        elim (Result-cases (sign key t.key_id t.team_id (unix (now e).0) (now e).1).0) [
          | inl (bearer, signed) ↦ ground (arith, given, signed)
          | inr (text, failed) ↦ ground (arith, given, failed)
        ]
  ]

  generate_bearer_if_expired_holder :
      (t : Token Key) (e : E)
      → let t' = (generate_bearer_if_expired now sign t e).1 in
        ((t'.auth_key ≡ t.auth_key) × (t'.key_id ≡ t.key_id) × (t'.team_id ≡ t.team_id))
  unfolding generate_bearer_if_expired expired
  generate_bearer_if_expired_holder t e =
      elim (Bool-cases (leb (t.issued_at + token_timeout) (unix (now e).0))) [
        | inl stale ↦ rw stale (generate_holder t (now e).1)
        | inr fresh ↦ rw fresh (refl, refl, refl)
      ]

  -- The token is signed anew at most every 3000 seconds: the issue time and the bearer stay, or the
  -- issue time rises by 3000 or more.
  pub generate_bearer_if_expired_rate :
      (t : Token Key) (e : E)
      → let (bearer, t', e') = generate_bearer_if_expired now sign t e in
        ((bearer ≡ t'.bearer)
          × (((t'.issued_at ≡ t.issued_at) × (t'.bearer ≡ t.bearer))
              ⊎ (t.issued_at + token_timeout ≤ t'.issued_at)))
  unfolding generate_bearer_if_expired expired
  generate_bearer_if_expired_rate t e =
      elim (Bool-cases (leb (t.issued_at + token_timeout) (unix (now e).0))) [
        | inl stale ↦
            ground (arith, stale, generate_step t (now e).1, runs.reading (now e).1, runs.after e)
        | inr fresh ↦ ground (arith, fresh)
      ]

  generate_fresh :
      (t : Token Key) (key : Key) (e : E)
      → t.auth_key ≡ some key
      → ((bearer : String) × ((sign key t.key_id t.team_id (unix (now e).0) (now e).1).0
            ≡ ok bearer))
      → (generate now sign t e).1.issued_at ≡ unix (now e).0
  unfolding generate generate_with store
  generate_fresh t key e given (bearer, signed) = ground (arith, given, signed)

  generate_bearer_if_expired_young :
      (t : Token Key) (key : Key) (e : E)
      → t.auth_key ≡ some key
      → ((key_id team_id : String) (issued_at : ℕ) (e : E)
          → (bearer : String) × ((sign key key_id team_id issued_at e).0 ≡ ok bearer))
      → let (bearer, t', e') = generate_bearer_if_expired now sign t e in
        ((bearer ≡ t'.bearer) × (unix (now e).0 < t'.issued_at + token_timeout))
  unfolding generate_bearer_if_expired expired
  generate_bearer_if_expired_young t key e given signs =
      elim (Bool-cases (leb (t.issued_at + token_timeout) (unix (now e).0))) [
        | inl stale ↦ ground (
          arith,
          stale,
          generate_fresh t key (now e).1 given (signs t.key_id t.team_id _ _),
          runs.reading (now e).1,
          runs.after e,
        )
        | inr fresh ↦ ground (arith, fresh)
      ]

-- The bearer in use was signed for its issue time, or there has been none yet.
abbrev pub IsGenuine :
    {Key : Type 0} → (Key → String → String → ℕ → String → Type 0) → Token Key → Type 0
IsGenuine {Key} Signed t =
    ((t.issued_at ≡ 0) × (t.bearer ≡ ""))
    ⊎ ((key : Key) × (t.auth_key ≡ some key) × Signed key t.key_id t.team_id t.issued_at t.bearer)

-- `Signed` is any relation that the signer's answers satisfy.
module _ {E Key : Type 0} (now : E → ℕ × E)
    (sign : Key → (key_id team_id : String) → (issued_at : ℕ) → E → Result String × E)
    (Signed : Key → String → String → ℕ → String → Type 0)
    (signs : (key : Key) (key_id team_id : String) (issued_at : ℕ) (e : E) (bearer : String)
      → (sign key key_id team_id issued_at e).0 ≡ ok bearer
      → Signed key key_id team_id issued_at bearer) where
  store-IsGenuine :
      (t : Token Key) (issued_at : ℕ) (answer : Result String × E)
      → IsGenuine Signed t
      → ((bearer : String)
          → answer.0 ≡ ok bearer
          → (key : Key) × (t.auth_key ≡ some key) × Signed key t.key_id t.team_id issued_at bearer)
      → IsGenuine Signed (store now sign t issued_at answer).1
  unfolding store
  store-IsGenuine t issued_at (ok bearer, e) genuine signed = inr (signed bearer refl)
  store-IsGenuine t issued_at (err text, e) genuine signed = genuine

  -- The same of the key as a value.
  generate_with-IsGenuine :
      (t : Token Key) (held : Option Key) (e : E)
      → t.auth_key ≡ held
      → IsGenuine Signed t
      → IsGenuine Signed (generate_with now sign t held e).1
  unfolding generate_with
  generate_with-IsGenuine t none e given genuine = genuine
  generate_with-IsGenuine t (some key) e given genuine =
      store-IsGenuine t _ (sign key t.key_id t.team_id (unix (now e).0) (now e).1) genuine
        (λ bearer signed. (key, given, signs key t.key_id t.team_id _ _ bearer signed))

  generate-IsGenuine :
      (t : Token Key) (e : E) → IsGenuine Signed t → IsGenuine Signed (generate now sign t e).1
  unfolding generate
  generate-IsGenuine t e genuine = generate_with-IsGenuine t t.auth_key e refl genuine

  -- The bearer in the token stays the signature of its key, its ids and its issue time, whatever
  -- the signer answers; before the first signature it is empty.
  pub generate_bearer_if_expired-IsGenuine :
      (t : Token Key) (e : E)
      → IsGenuine Signed t
      → IsGenuine Signed (generate_bearer_if_expired now sign t e).1
  unfolding generate_bearer_if_expired expired
  generate_bearer_if_expired-IsGenuine t e genuine =
      elim (Bool-cases (leb (t.issued_at + token_timeout) (unix (now e).0))) [
        | inl stale ↦ rw stale (generate-IsGenuine t (now e).1 genuine)
        | inr fresh ↦ rw fresh genuine
      ]

  module _ (passed : E → ℕ) (runs : Runs now sign passed) where
    Signed-inv :
        (t : Token Key) (key : Key)
        → IsGenuine Signed t
        → t.auth_key ≡ some key
        → 0 < t.issued_at
        → Signed key t.key_id t.team_id t.issued_at t.bearer
    Signed-inv t key (inl (unsigned, _)) given later = absurd (omega (arith, unsigned, later))
    Signed-inv t key (inr (held, h, signed)) given later =
        let same : held ≡ key = ground (arith, h, given) in
        subst (λ k. Signed k t.key_id t.team_id t.issued_at t.bearer) same signed

    -- With a key that signs without error, and a clock that has passed the first 3000 seconds of
    -- 1970, the bearer that is sent with a push is the one kept in the token, and is what the signer
    -- made of the token's key and ids for an issue time that lies less than 3000 seconds before the
    -- clock as it stood at the call. (`Signed` is any relation that holds of the signer's answers, and
    -- the bearer of the token before the call was its signature, if it was ever signed.)
    pub generate_bearer_if_expired_fresh :
        (t : Token Key) (key : Key) (e : E)
        → t.auth_key ≡ some key
        → ((key_id team_id : String) (issued_at : ℕ) (e : E)
            → (bearer : String) × ((sign key key_id team_id issued_at e).0 ≡ ok bearer))
        → IsGenuine Signed t
        → token_timeout ≤ unix (now e).0
        → let (bearer, t', e') = generate_bearer_if_expired now sign t e in
          ((bearer ≡ t'.bearer)
            × Signed key t.key_id t.team_id t'.issued_at bearer
            × (unix (now e).0 < t'.issued_at + token_timeout))
    generate_bearer_if_expired_fresh t key e given total genuine late =
        let t' = (generate_bearer_if_expired now sign t e).1 in
        let (same, young) =
          generate_bearer_if_expired_young now sign passed runs t key e given total in
        let (key_kept, id_kept, team_kept) =
          generate_bearer_if_expired_holder now sign passed runs t e in
        let signed : Signed key t'.key_id t'.team_id t'.issued_at t'.bearer =
          Signed-inv t' key (generate_bearer_if_expired-IsGenuine t e genuine) (key_kept ∙ given)
            (omega (arith, late, young)) in
        let by_key = subst (λ id. Signed key id t'.team_id t'.issued_at t'.bearer) id_kept signed in
        let by_team =
          subst (λ id. Signed key t.key_id id t'.issued_at t'.bearer) team_kept by_key in
        (same, subst (λ b. Signed key t.key_id t.team_id t'.issued_at b) (sym same) by_team, young)
