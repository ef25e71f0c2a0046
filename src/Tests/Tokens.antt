-- ===== src/Tests/Tokens.antt =====
-- A provider token under a clock that is the state of the world itself.
use gaurun.Prelude.{ℕ, ◌+◌, ◌*◌, ◌<◌, ◌≤◌, ◌≡◌, ◌⊎◌, inr, refl, arith, String, ◌++ˢ◌, some}
use gaurun.Http.{Result, ok}
use gaurun.Buford.Token.{Token, token_timeout, unix, generate_bearer_if_expired}
use gaurun.Buford.Token.Laws.{
  Runs, generate_bearer_if_expired_rate, generate_bearer_if_expired_fresh,
}

abbrev second : ℕ
second = 1000000000

-- A reading takes a nanosecond, a signature a second.
abbrev now : ℕ → ℕ × ℕ
now e = (e, e + 1)

abbrev sign : String → (key_id team_id : String) → (issued_at : ℕ) → ℕ → Result String × ℕ
sign key key_id team_id issued_at e = (ok (key ++ˢ key_id ++ˢ team_id), e + second)

clock-Runs : Runs now sign (λ e. e)
clock-Runs = record {
  reading = λ e. omega arith;
  after = λ e. omega arith;
  signing = λ key key_id team_id issued_at e. omega arith;
}

abbrev old : Token String
old = record {
  auth_key = some "secret";
  key_id = "kid";
  team_id = "tid";
  issued_at = 100;
  bearer = "secretkidtid";
}

-- The bearer of second 100 is signed anew in second 3100, and not in second 3099.
renewed : (generate_bearer_if_expired now sign old (3100 * second)).1.issued_at ≡ 3100
unfolding generate_bearer_if_expired
renewed = refl

kept : (generate_bearer_if_expired now sign old (3099 * second)).1 ≡ old
unfolding generate_bearer_if_expired
kept = refl

generate_bearer_if_expired_rate_example :
    let (bearer, t', e') = generate_bearer_if_expired now sign old (3100 * second) in
    ((bearer ≡ t'.bearer)
      × (((t'.issued_at ≡ old.issued_at) × (t'.bearer ≡ old.bearer))
          ⊎ (old.issued_at + token_timeout ≤ t'.issued_at)))
generate_bearer_if_expired_rate_example =
    generate_bearer_if_expired_rate now sign (λ e. e) clock-Runs old (3100 * second)

abbrev Signed : String → String → String → ℕ → String → Type 0
Signed key key_id team_id issued_at bearer = bearer ≡ key ++ˢ key_id ++ˢ team_id

sign-Signed :
    (key key_id team_id : String) (issued_at e : ℕ) (bearer : String)
    → (sign key key_id team_id issued_at e).0 ≡ ok bearer
    → Signed key key_id team_id issued_at bearer
sign-Signed key key_id team_id issued_at e bearer made = ground (arith, made)

generate_bearer_if_expired_fresh_example :
    let (bearer, t', e') = generate_bearer_if_expired now sign old (3100 * second) in
    ((bearer ≡ t'.bearer)
      × Signed "secret" old.key_id old.team_id t'.issued_at bearer
      × (unix (now (3100 * second)).0 < t'.issued_at + token_timeout))
generate_bearer_if_expired_fresh_example =
    generate_bearer_if_expired_fresh now sign Signed sign-Signed (λ e. e) clock-Runs old "secret"
      (3100 * second) refl (λ key_id team_id issued_at e. (_, refl)) (inr ("secret", refl, refl))
      (omega arith)
