-- ===== src/Buford/Push/Tokens.antt =====
-- About buford/push/device_token.go.
use gaurun.Prelude.{ℕ, ◌%◌, ◌≤◌, ◌≡◌, ◌↔◌, arith, Bool, ◌&&◌, true, List, [], ◌∷◌, length, All}
use gaurun.Buford.Push.DeviceToken.{is_hex_digit, decodes, is_device_token_valid}

and_three_iff : (a b c : Bool) → ((a && (b && c)) ≡ true) ↔ ((a ≡ true) × (b ≡ true) × (c ≡ true))
and_three_iff a b c = ground arith

decodes_iff :
    (s : List ℕ) → (decodes s ≡ true) ↔ ((length s % 2 ≡ 0) × All (λ c. is_hex_digit c ≡ true) s)
unfolding decodes
decodes_iff [] = ground arith
decodes_iff (x ∷ []) = ground arith
decodes_iff (x ∷ y ∷ rest) =
    let (there, back) = decodes_iff rest in
    let (split, join) = and_three_iff (is_hex_digit x) (is_hex_digit y) (decodes rest) in
    (
      λ p.
          let (hx, hy, hr) = split p in
          let (even, hs) = there hr in (omega (arith, even), (hx, (hy, hs))),
      λ (even, (hx, (hy, hs))). join (hx, hy, back (omega (arith, even), hs)),
    )

-- A device token is valid exactly if it is an even number of hexadecimal digits from 64 to 200.
pub is_device_token_valid_iff :
    (s : List ℕ)
    → (is_device_token_valid s ≡ true) ↔ (
        (64 ≤ length s)
        × (length s ≤ 200)
        × (length s % 2 ≡ 0)
        × All (λ c. is_hex_digit c ≡ true) s)
unfolding is_device_token_valid
is_device_token_valid_iff s = ground (arith, decodes_iff s)
