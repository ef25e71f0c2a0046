-- ===== src/Prelude/Texts.antt =====
-- Texts: the tests of Go's `len(s) == 0`, `strings.Contains` and `strings.HasPrefix`, decimal print
-- of numbers, and association lists with a text for a key (Go's maps).
use Prim.Native.Nat.{ℕ, zero, suc, ◌/◌, ◌%◌}
use Prim.Native.Char.{code}
use Prim.Native.String.append
use Prim.Native.String.{String, ◌++◌ as ◌++ˢ◌}
use mathlib.Core.Path.{◌≡◌, refl, ap}
use mathlib.Core.Logic.{◌↔◌}
use mathlib.Core.Bool.{Bool, true, false, ◌&&◌, ◌||◌}
use mathlib.Core.Option.{Option, none, some}
use mathlib.Core.List.{List, [], ◌∷◌, ◌++◌}
use native.Mathlib.Omega.{arith}
use text.Mathlib.Text.{◌==◌ as str_eq}
use text.Mathlib.TextEquality.{eq_iff}
use gaurun.Prelude.Tests.{ltb, ◌==◌, if◌then◌else◌}

-- `len(s) == 0`, and `s == ""`.
abbrev pub is_empty : String → Bool
is_empty String.[] = true
is_empty (String.◌∷◌ c s) = false

pub is_empty_iff : (s : String) → (is_empty s ≡ true) ↔ (s ≡ "")
is_empty_iff String.[] = (λ _. refl, λ _. refl)
is_empty_iff (String.◌∷◌ c s) = (λ h. cc, λ h. ap is_empty h)

-- The code points of a text.
abbrev pub codes : String → List ℕ
codes String.[] = []
codes (String.◌∷◌ c s) = code c ∷ codes s

pub codes-append : (s t : String) → codes (s ++ˢ t) ≡ codes s ++ codes t
codes-append String.[] t = rw (append.nil t)
codes-append (String.◌∷◌ c s) t =
    rw (append.cons c s t) (ap (λ (l : List ℕ). code c ∷ l) (codes-append s t))

abbrev pub begins_with : List ℕ → List ℕ → Bool
begins_with xs [] = true
begins_with [] (y ∷ ys) = false
begins_with (x ∷ xs) (y ∷ ys) = x == y && begins_with xs ys

abbrev pub occurs_in : List ℕ → List ℕ → Bool
occurs_in ys [] = begins_with [] ys
occurs_in ys (x ∷ xs) = begins_with (x ∷ xs) ys || occurs_in ys xs

-- strings.Contains(s, sub)
unfoldable pub contains : String → String → Bool
contains s sub = occurs_in (codes sub) (codes s)

-- strings.HasPrefix(s, prefix)
unfoldable pub has_prefix : String → String → Bool
has_prefix s prefix = begins_with (codes s) (codes prefix)

unfoldable pub digit : ℕ → String
digit zero = "0"
digit (suc zero) = "1"
digit (suc (suc zero)) = "2"
digit (suc (suc (suc zero))) = "3"
digit (suc (suc (suc (suc zero)))) = "4"
digit (suc (suc (suc (suc (suc zero))))) = "5"
digit (suc (suc (suc (suc (suc (suc zero)))))) = "6"
digit (suc (suc (suc (suc (suc (suc (suc zero))))))) = "7"
digit (suc (suc (suc (suc (suc (suc (suc (suc zero)))))))) = "8"
digit _ = "9"

unfoldable pub digits : ℕ → ℕ → String
digits zero n = ""
digits (suc fuel) n =
    let rest = digits fuel (n / 10) in if ltb n 10 then digit n else rest ++ˢ digit (n % 10)

-- %d of a number: a number n has at most n + 1 digits.
unfoldable pub show_ℕ : ℕ → String
unfolding digit digits
show_ℕ n = digits (suc n) n

-- A Go map as a list of entries, each key at most once.
module _ {ℓ} {V : Type ℓ} where
  -- `entries[name]`, none if the key is missing
  unfoldable pub lookup : (name : String) (entries : List (String × V)) → Option V
  lookup name [] = none
  lookup name ((key, value) ∷ entries) =
      let further = lookup name entries in if str_eq name key then some value else further

  -- `entries[name] = value`
  unfoldable pub insert : (name : String) (value : V) → List (String × V) → List (String × V)
  insert name value [] = (name, value) ∷ []
  insert name value ((key, old) ∷ entries) =
      let further = insert name value entries in
      if str_eq name key then (key, value) ∷ entries else (key, old) ∷ further

  -- What is found after a write: the value written, or what was found before under another key.
  pub lookup-insert :
      (asked name : String) (value : V) (entries : List (String × V))
      → lookup asked (insert name value entries)
        ≡ (if str_eq asked name then some value else lookup asked entries)
  unfolding lookup insert
  lookup-insert asked name value ((key, old) ∷ entries) = ground (
    arith,
    lookup-insert asked name value entries,
    eq_iff asked name,
    eq_iff name key,
    eq_iff asked key,
  )
  lookup-insert asked name value [] = refl

show_tests : (show_ℕ 0 ≡ "0") × (show_ℕ 2419200 ≡ "2419200")
unfolding show_ℕ
show_tests = (refl, refl)

contains_tests :
    (contains "504 Gateway Timeout" "Timeout" ≡ true) × (contains "Time out" "Timeout" ≡ false)
unfolding contains
contains_tests = (refl, refl)
