-- ===== src/Server/Ending.antt =====
-- Programs that stop at a fatal error or a fault: how they end, for a program put together of parts.
use gaurun.Prelude.{
  ◌≡◌, refl, sym, ap, ◌∙◌, String, Bool, true, false, List, [], ◌∷◌, ◌++◌, Option, none, some,
  if◌then◌else◌, subst,
}
use mathlib.Core.List.{append_assoc, append-nil}
use gaurun.Http.{Result, ok, err}
use gaurun.Server.Apns.{Loaded, loaded, fault}
use gaurun.Server.Run.{Effect, log_fatal, panic, Run, ◌>>=◌, or_fatal, or_panic, unless_fatal}

abbrev pub is_stop : Effect → Bool
is_stop (log_fatal text) = true
is_stop panic = true
is_stop _ = false

-- A stop after the first of the effects in `course`, with nothing after it.
abbrev pub Stopped : (course : List Effect) → List Effect → Type 0
Stopped course effects =
    (before : List Effect) × (last : Effect) × (effects ≡ before ++ last ∷ [])
    × (is_stop last ≡ true)
    × (rest : List Effect) × (course ≡ before ++ rest)

-- All the effects in `course`, and what holds of the value; or a stop on the way.
abbrev pub Ends : {A : Type 0} → (course : List Effect) → (A → Type 0) → Run A → Type 0
Ends course P (effects, none) = Stopped course effects
Ends course P (effects, some a) = (effects ≡ course) × P a

pub prepend-Ends :
    {B : Type 0} (Q : B → Type 0) (first course : List Effect) (r : Run B)
    → Ends course Q r
    → Ends (first ++ course) Q (first ++ r.0, r.1)
prepend-Ends Q first course (more, none) (before, last, e, stop, rest, e') = (
  first ++ before,
  last,
  ap (λ l. first ++ l) e ∙ sym (append_assoc first before (last ∷ [])),
  stop,
  rest,
  ap (λ l. first ++ l) e' ∙ sym (append_assoc first before rest),
)
prepend-Ends Q first course (more, some b) (e, q) = (ap (λ l. first ++ l) e, q)

-- The rest of the program is shown for the values that the first part leaves.
pub bind-Ends :
    {A B : Type 0} (P : A → Type 0) (Q : B → Type 0) (first course : List Effect) (r : Run A)
    (f : A → Run B)
    → Ends first P r
    → ((a : A) → P a → Ends course Q (f a))
    → Ends (first ++ course) Q (r >>= f)
bind-Ends P Q first course (effects, none) f (before, last, e, stop, rest, e') next = (
  before,
  last,
  e,
  stop,
  rest ++ course,
  ap (λ l. l ++ course) e' ∙ append_assoc before rest course,
)
bind-Ends P Q first course (effects, some a) f (e, p) next =
    subst (λ l. Ends (l ++ course) Q (effects ++ (f a).0, (f a).1)) e
      (prepend-Ends Q effects course (f a) (next a p))

-- A rest without effects.
pub bind_quiet-Ends :
    {A B : Type 0} (P : A → Type 0) (Q : B → Type 0) (first : List Effect) (r : Run A)
    (f : A → Run B)
    → Ends first P r
    → ((a : A) → P a → Ends [] Q (f a))
    → Ends first Q (r >>= f)
bind_quiet-Ends P Q first r f h next =
    subst (λ l. Ends l Q (r >>= f)) (append-nil first) (bind-Ends P Q first [] r f h next)

pub fatal-Stopped : (course : List Effect) (text : String) → Stopped course (log_fatal text ∷ [])
fatal-Stopped course text = ([], log_fatal text, refl, refl, course, refl)

pub or_fatal-Ends :
    {A : Type 0} (text_of : String → String) (r : Result A)
    → Ends [] (λ a. r ≡ ok a) (or_fatal text_of r)
or_fatal-Ends text_of (ok a) = (refl, refl)
or_fatal-Ends text_of (err text) = fatal-Stopped [] (text_of text)

pub unless_fatal-Ends : (o : Option String) → Ends [] (λ _. o ≡ none) (unless_fatal o)
unless_fatal-Ends none = (refl, refl)
unless_fatal-Ends (some text) = fatal-Stopped [] text

pub or_panic-Ends : {A : Type 0} (r : Loaded A) → Ends [] (λ a. r ≡ loaded a) (or_panic r)
or_panic-Ends (loaded a) = (refl, refl)
or_panic-Ends fault = ([], panic, refl, refl, [], refl)

pub if-Ends :
    {A : Type 0} (course : List Effect) (P : A → Type 0) (b : Bool) (one other : Run A)
    → (b ≡ true → Ends course P one)
    → (b ≡ false → Ends course P other)
    → Ends course P (if b then one else other)
if-Ends course P true one other h k = h refl
if-Ends course P false one other h k = k refl

-- A first step without effects, which stops or goes on with a value.
pub or_fatal-then :
    {A B : Type 0} (P : Run B → Type 0) (text_of : String → String) (r : Result A) (f : A → Run B)
    → ((text : String) → P (log_fatal text ∷ [], none))
    → ((a : A) → r ≡ ok a → P (f a))
    → P (or_fatal text_of r >>= f)
or_fatal-then P text_of (ok a) f stop next = next a refl
or_fatal-then P text_of (err text) f stop next = stop (text_of text)
