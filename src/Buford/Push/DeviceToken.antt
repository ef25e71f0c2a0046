-- ===== src/Buford/Push/DeviceToken.antt =====
-- buford/push/device_token.go, over the bytes of the token. `hex.DecodeString` accepts an even
-- number of hexadecimal digits.
use gaurun.Prelude.{
  ℕ, Bool, true, false, ◌&&◌, ◌||◌, List, [], ◌∷◌, length, ltb, leb, if◌then◌else◌,
}

unfoldable pub is_hex_digit : ℕ → Bool
is_hex_digit c = leb b'0' c && leb c b'9' || (leb b'a' c && leb c b'f' || leb b'A' c && leb c b'F')

-- `_, err := hex.DecodeString(s); err == nil`
unfoldable pub decodes : List ℕ → Bool
unfolding is_hex_digit
decodes [] = true
decodes (x ∷ []) = false
decodes (x ∷ y ∷ rest) = is_hex_digit x && (is_hex_digit y && decodes rest)

unfoldable pub is_device_token_valid : List ℕ → Bool
is_device_token_valid s = if ltb (length s) 64 || ltb 200 (length s) then false else decodes s
