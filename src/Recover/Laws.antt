-- ===== src/Recover/Laws.antt =====
-- About the scan of cmd/gaurun_recover/gaurun_recover.go.
use gaurun.Prelude.{
  ℕ, ◌≡◌, refl, sym, ◌∙◌, arith, String, true, false, ◌&&◌, List, [], ◌∷◌, Option, none, some,
  str_eq, eq_iff, lookup_id, insert_id, lookup_id-insert_id, ◌==◌, if◌then◌else◌, Bool-cases, ◌⊎◌,
  inl, inr, Option-cases,
}
use gaurun.Http.{Result, ok, err, Result-cases}
use gaurun.Recover.{Entry, Scan, take_entry, take_line, scan_from, scan, losts_from, losts, keep}

abbrev prepend : Result Entry → List Entry → List Entry
prepend (err e) entries = entries
prepend (ok entry) entries = entry ∷ entries

-- The entries of the lines that can be read.
abbrev pub read : (String → Result Entry) → List String → List Entry
read unmarshal [] = []
read unmarshal (line ∷ lines) = prepend (unmarshal line) (read unmarshal lines)

-- The last entry of a kind with the number `id`, or else `before`.
unfoldable pub last_of : (kind : String) (id : ℕ) → Option Entry → List Entry → Option Entry
last_of kind id before [] = before
last_of kind id before (e ∷ entries) =
    last_of kind id (if str_eq e.kind kind && id == e.id then some e else before) entries

-- An acceptance is lost if there is no success.
abbrev pub unless_succeeded : (success accepted before : Option Entry) → Option Entry
unless_succeeded none (some e) before = some e
unless_succeeded _ _ before = before

-- No key stands twice.
abbrev Unique : List (ℕ × Entry) → Type 0
Unique [] = Unit
Unique ((key, e) ∷ m) = (lookup_id key m ≡ none) × Unique m

insert_id-Unique :
    (id : ℕ) (e : Entry) (m : List (ℕ × Entry)) → Unique m → Unique (insert_id id e m)
unfolding insert_id lookup_id
insert_id-Unique id e [] h = (refl, tt)
insert_id-Unique id e ((key, old) ∷ m) h = elim (Bool-cases (id == key)) [
  | inl same ↦ rw same (h.0, h.1)
  | inr differ ↦
      rw differ
        (ground (arith, differ, h.0, lookup_id-insert_id key id e m), insert_id-Unique id e m h.1)
]

-- An entry by its kind: an acceptance, a success, or neither.
take_entry-cases :
    (s : Scan) (e : Entry)
    → ((str_eq e.kind "accepted-push" ≡ true)
        × (str_eq e.kind "succeeded-push" ≡ false)
        × (take_entry s e ≡ record s { accepts = insert_id e.id e s.accepts }))
      ⊎ ((str_eq e.kind "accepted-push" ≡ false)
          × (str_eq e.kind "succeeded-push" ≡ true)
          × (take_entry s e ≡ record s { successes = insert_id e.id e s.successes }))
      ⊎ ((str_eq e.kind "accepted-push" ≡ false)
          × (str_eq e.kind "succeeded-push" ≡ false)
          × (take_entry s e ≡ s))
unfolding take_entry
take_entry-cases s e = elim (Bool-cases (str_eq e.kind "accepted-request")) [
  | inl request ↦
      let kind = (eq_iff _ _).0 request in
      inr (inr (rw kind refl, rw kind refl, simp (request) refl))
  | inr other ↦ elim (Bool-cases (str_eq e.kind "accepted-push")) [
    | inl accepted ↦
        let kind = (eq_iff _ _).0 accepted in
        inl (accepted, rw kind refl, simp (other, accepted) refl)
    | inr refused ↦ elim (Bool-cases (str_eq e.kind "succeeded-push")) [
      | inl succeeded ↦ inr (inl (refused, succeeded, simp (other, refused, succeeded) refl))
      | inr failed ↦ inr (inr (refused, failed, simp (other, refused, failed) refl))
    ]
  ]
]

take_entry-Unique : (s : Scan) (e : Entry) → Unique s.accepts → Unique (take_entry s e).accepts
take_entry-Unique s e h = elim (take_entry-cases s e) [
  | inl (_, _, q) ↦ rw q (insert_id-Unique e.id e s.accepts h)
  | inr (inl (_, _, q)) ↦ rw q h
  | inr (inr (_, _, q)) ↦ rw q h
]

-- What an entry changes at one number.
take_entry-accepts :
    (s : Scan) (e : Entry) (id : ℕ)
    → lookup_id id (take_entry s e).accepts
      ≡ (if str_eq e.kind "accepted-push" && id == e.id then some e else lookup_id id s.accepts)
take_entry-accepts s e id = elim (take_entry-cases s e) [
  | inl (k, _, q) ↦ rw (q, k) (lookup_id-insert_id id e.id e s.accepts)
  | inr (inl (k, _, q)) ↦ rw (q, k) refl
  | inr (inr (k, _, q)) ↦ rw (q, k) refl
]

take_entry-successes :
    (s : Scan) (e : Entry) (id : ℕ)
    → lookup_id id (take_entry s e).successes
      ≡ (if str_eq e.kind "succeeded-push" && id == e.id then some e else lookup_id id s.successes)
take_entry-successes s e id = elim (take_entry-cases s e) [
  | inl (_, k, q) ↦ rw (q, k) refl
  | inr (inl (_, k, q)) ↦ rw (q, k) (lookup_id-insert_id id e.id e s.successes)
  | inr (inr (_, k, q)) ↦ rw (q, k) refl
]

losts_from-unless :
    (successes accepts before : List (ℕ × Entry)) (id : ℕ)
    → Unique accepts
    → lookup_id id (losts_from successes accepts before)
      ≡ unless_succeeded (lookup_id id successes) (lookup_id id accepts) (lookup_id id before)
unfolding losts_from lookup_id keep
losts_from-unless successes [] before id h = ground arith
losts_from-unless successes ((key, e) ∷ accepts) before id h =
    elim (Option-cases (lookup_id key successes)) [
      | inl lost ↦ ground (
        arith,
        lost,
        h.0,
        losts_from-unless successes accepts (insert_id key e before) id h.1,
        lookup_id-insert_id id key e before,
      )
      | inr (found, succeeded) ↦
          ground (arith, succeeded, h.0, losts_from-unless successes accepts before id h.1)
    ]

-- The entries taken one after another.
take_all : Scan → List Entry → Scan
take_all s [] = s
take_all s (e ∷ entries) = take_all (take_entry s e) entries

take_all-accepts :
    (s : Scan) (entries : List Entry) (id : ℕ)
    → lookup_id id (take_all s entries).accepts
      ≡ last_of "accepted-push" id (lookup_id id s.accepts) entries
unfolding take_all last_of
take_all-accepts s [] id = refl
take_all-accepts s (e ∷ entries) id =
    rw (take_entry-accepts s e id) at (take_all-accepts (take_entry s e) entries id)

take_all-successes :
    (s : Scan) (entries : List Entry) (id : ℕ)
    → lookup_id id (take_all s entries).successes
      ≡ last_of "succeeded-push" id (lookup_id id s.successes) entries
unfolding take_all last_of
take_all-successes s [] id = refl
take_all-successes s (e ∷ entries) id =
    rw (take_entry-successes s e id) at (take_all-successes (take_entry s e) entries id)

take_all-Unique :
    (s : Scan) (entries : List Entry) → Unique s.accepts → Unique (take_all s entries).accepts
unfolding take_all
take_all-Unique s [] h = h
take_all-Unique s (e ∷ entries) h =
    take_all-Unique (take_entry s e) entries (take_entry-Unique s e h)

module _ (unmarshal : String → Result Entry) where
  take_line-eq :
      (s : Scan) (line : String)
      → take_line unmarshal s line ≡ take_all s (prepend (unmarshal line) [])
  unfolding take_line take_all
  take_line-eq s line = elim (Result-cases (unmarshal line)) [
    | inr (text, bad) ↦ rw (bad, take_line, take_all) refl
    | inl (e, good) ↦ rw (good, take_line, take_all) refl
  ]

  take_all-prepend :
      (s : Scan) (r : Result Entry) (entries : List Entry)
      → take_all s (prepend r entries) ≡ take_all (take_all s (prepend r [])) entries
  unfolding take_all
  take_all-prepend s (ok e) entries = refl
  take_all-prepend s (err e) entries = refl

  scan_from-eq :
      (s : Scan) (lines : List String)
      → scan_from unmarshal s lines ≡ take_all s (read unmarshal lines)
  unfolding scan_from take_all
  scan_from-eq s [] = refl
  scan_from-eq s (line ∷ lines) =
      scan_from-eq (take_line unmarshal s line) lines
      ∙ rw (take_line-eq s line) (sym (take_all-prepend s (unmarshal line) (read unmarshal lines)))

  -- The notifications that are pushed again, by their numbers: those of which the log has an
  -- acceptance and no success, each as its last acceptance says; lines that cannot be read and
  -- entries of other types (failures too) count for nothing.
  pub losts-eq-unless :
      (lines : List String) (id : ℕ)
      → lookup_id id (losts (scan unmarshal lines))
        ≡ unless_succeeded
            (last_of "succeeded-push" id none (read unmarshal lines))
            (last_of "accepted-push" id none (read unmarshal lines))
            none
  unfolding losts scan lookup_id
  losts-eq-unless lines id =
      let s : Scan = record { accepts = []; successes = [] } in
      let entries = read unmarshal lines in
      let t = take_all s entries in
      rw
        (
          scan_from-eq s lines,
          sym (take_all-successes s entries id),
          sym (take_all-accepts s entries id),
        )
        (losts_from-unless t.successes t.accepts [] id (take_all-Unique s entries tt))
