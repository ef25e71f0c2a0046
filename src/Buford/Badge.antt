-- ===== src/Buford/Badge.antt =====
-- buford/payload/badge/badge.go. A uint has 64 bits.
use gaurun.Prelude.{ℕ, String, ◌++ˢ◌, Bool, true, false, show_ℕ, if◌then◌else◌}

pub record Badge : Type 0 where
  pub number : ℕ
  pub is_set : Bool

-- `Preserve` is the zero value.
abbrev pub preserve : Badge
preserve = record { number = 0; is_set = false }

abbrev pub clear : Badge
clear = record { number = 0; is_set = true }

unfoldable pub new : ℕ → Badge
new number = record { number = number; is_set = true }

-- `Number()`
unfoldable pub number_of : Badge → ℕ × Bool
number_of b = (b.number, b.is_set)

-- `String()`
unfoldable pub to_string : Badge → String
to_string b = if b.is_set then "set " ++ˢ show_ℕ b.number else "preserve"
