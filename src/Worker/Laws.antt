-- ===== src/Worker/Laws.antt =====
-- About the retries of gaurun/worker.go.
use gaurun.Prelude.{
  ℕ, zero, suc, ℤ, pos, ◌≤◌, String, ◌≡◌, refl, ◌⊎◌, inl, inr, true, false, Option, none, some,
  ltb_ℤ, +ℤ_parts, arith, Bool-cases, Option-cases, ap,
}
use gaurun.Buford.Errors.{GoError}
use gaurun.Notification.{Notification}
use gaurun.Worker.{is_external_server_error}
use gaurun.Worker.Retry.{retried, budget, Ended, ended, fault, goes_on, push_loop, push_sync}

abbrev pub ended_of : {S : Type 0} → Option (Option GoError × S) → Ended S
ended_of none = fault
ended_of (some (err, s)) = ended err s

module _ {S : Type 0} (show_time : Option ℤ → String)
    (pusher : Notification → S → Option (Option GoError × S)) where
  -- `k` calls of the pusher that fail with an external server's error, each on the request of the
  -- one before with `Retry` one higher and on the state that it left, and then a call with result `o`.
  abbrev pub Retries : ℕ → Notification → S → Option (Option GoError × S) → Type 0
  Retries zero req s o = pusher req s ≡ o
  Retries (suc k) req s o =
      (x : GoError) × (s' : S) × (pusher req s ≡ some (some x, s'))
      × (is_external_server_error show_time x req.platform ≡ true)
      × Retries k (retried req) s' o

  -- No further call is due after a fault, a success, an error of another kind, or `n` retries.
  abbrev pub IsFinal : ℤ → ℕ → ℕ → Option (Option GoError × S) → Type 0
  IsFinal platform n k none = Unit
  IsFinal platform n k (some (none, s)) = Unit
  IsFinal platform n k (some (some x, s)) =
      (is_external_server_error show_time x platform ≡ false) ⊎ (k ≡ n)

  pub record Stops (req : Notification) (retry_max : ℤ) (s : S) (result : Ended S) : Type 0 where
    pub retries : ℕ
    pub outcome : Option (Option GoError × S)
    pub at_most : retries ≤ budget req retry_max
    pub calls : Retries retries req s outcome
    pub final : IsFinal req.platform (budget req retry_max) retries outcome
    pub result_eq : result ≡ ended_of outcome

  budget-retried :
      (req : Notification) (retry_max : ℤ)
      → ltb_ℤ req.retry retry_max ≡ true
      → budget req retry_max ≡ suc (budget (retried req) retry_max)
  unfolding budget retried
  budget-retried req retry_max h = ground (arith, +ℤ_parts req.retry (pos 1))

  stop-IsFinal :
      (req : Notification) (retry_max : ℤ) (err : Option GoError) (s' : S)
      → goes_on show_time pusher req retry_max err ≡ false
      → IsFinal req.platform (budget req retry_max) 0 (some (err, s'))
  unfolding goes_on budget
  stop-IsFinal req retry_max none s' h = tt
  stop-IsFinal req retry_max (some x) s' h = ground arith

  goes_on-inv :
      (req : Notification) (retry_max : ℤ) (err : Option GoError)
      → goes_on show_time pusher req retry_max err ≡ true
      → (x : GoError) × (err ≡ some x)
        × (is_external_server_error show_time x req.platform ≡ true)
        × (budget req retry_max ≡ suc (budget (retried req) retry_max))
  unfolding goes_on
  goes_on-inv req retry_max none h = cc
  goes_on-inv req retry_max (some x) h =
      (x, refl, ground arith, budget-retried req retry_max (ground arith))

  IsFinal-suc :
      (p : ℤ) (n k : ℕ) (o : Option (Option GoError × S))
      → IsFinal p n k o
      → IsFinal p (suc n) (suc k) o
  IsFinal-suc p n k none h = tt
  IsFinal-suc p n k (some (none, s)) h = tt
  IsFinal-suc p n k (some (some x, s)) (inl other) = inl other
  IsFinal-suc p n k (some (some x, s)) (inr spent) = inr (ap suc spent)

  -- `result` is where the loop goes on to, with less fuel.
  again :
      (req : Notification) (retry_max : ℤ) (s s' : S) (err : Option GoError) {result : Ended S}
      → pusher req s ≡ some (err, s')
      → goes_on show_time pusher req retry_max err ≡ true
      → Stops (retried req) retry_max s' result
      → Stops req retry_max s result
  unfolding retried
  again req retry_max s s' err called more next =
      let (x, failing, external, e) = goes_on-inv req retry_max err more in
      record {
        retries = suc next.retries;
        outcome = next.outcome;
        at_most = omega (arith, next.at_most);
        calls = (x, s', rw failing at called, external, next.calls);
        final = rw e (IsFinal-suc req.platform _ next.retries next.outcome next.final);
        result_eq = next.result_eq;
      }

  stopped :
      (req : Notification) (retry_max : ℤ) (s s' : S) (err : Option GoError)
      → pusher req s ≡ some (err, s')
      → goes_on show_time pusher req retry_max err ≡ false
      → Stops req retry_max s (ended err s')
  stopped req retry_max s s' err called last = record {
    retries = 0;
    outcome = some (err, s');
    at_most = omega arith;
    calls = called;
    final = stop-IsFinal req retry_max err s' last;
    result_eq = refl;
  }

  faulted :
      (req : Notification) (retry_max : ℤ) (s : S)
      → pusher req s ≡ none
      → Stops req retry_max s fault
  faulted req retry_max s called = record {
    retries = 0;
    outcome = none;
    at_most = omega arith;
    calls = called;
    final = tt;
    result_eq = refl;
  }

  push_loop-Stops :
      (n : ℕ) (req : Notification) (retry_max : ℤ) (s : S)
      → budget req retry_max ≡ n
      → Stops req retry_max s (push_loop show_time pusher (suc n) req retry_max s)
  unfolding push_loop
  push_loop-Stops zero req retry_max s e = elim (Option-cases (pusher req s)) [
    | inl faulty ↦ rw (faulty, push_loop) (faulted req retry_max s faulty)
    | inr ((err, s'), called) ↦ elim (Bool-cases (goes_on show_time pusher req retry_max err)) [
      | inl more ↦ absurd (omega (arith, (goes_on-inv req retry_max err more).3))
      | inr last ↦ rw (called, last, push_loop) (stopped req retry_max s s' err called last)
    ]
  ]
  push_loop-Stops (suc n) req retry_max s e = elim (Option-cases (pusher req s)) [
    | inl faulty ↦ rw (faulty, push_loop) (faulted req retry_max s faulty)
    | inr ((err, s'), called) ↦ elim (Bool-cases (goes_on show_time pusher req retry_max err)) [
      | inl more ↦
          rw (called, more, push_loop)
            (again req retry_max s s' err called more (
              push_loop-Stops n (retried req) retry_max s'
                (omega (arith, (goes_on-inv req retry_max err more).3))))
      | inr last ↦ rw (called, last, push_loop) (stopped req retry_max s s' err called last)
    ]
  ]

  -- The retry loop always ends: after at most `retryMax - Retry` retries (none if that is
  -- negative), each after an external server's error, it yields the outcome of its last call, which
  -- is a fault of the pusher, a success, an error of another kind, or the result of the last retry
  -- that is allowed.
  pub push_sync-Stops :
      (req : Notification) (retry_max : ℤ) (s : S)
      → Stops req retry_max s (push_sync show_time pusher req retry_max s)
  unfolding push_sync
  push_sync-Stops req retry_max s = push_loop-Stops (budget req retry_max) req retry_max s refl

  -- A loop that ends with its first call.
  pub push_sync_last :
      (req : Notification) (retry_max : ℤ) (s : S)
      → ((err : Option GoError) (s' : S)
          → pusher req s ≡ some (err, s')
          → goes_on show_time pusher req retry_max err ≡ false)
      → push_sync show_time pusher req retry_max s ≡ ended_of (pusher req s)
  unfolding push_sync push_loop
  push_sync_last req retry_max s last = elim (Option-cases (pusher req s)) [
    | inl faulty ↦ rw (faulty, push_loop) refl
    | inr ((err, s'), called) ↦ rw (called, last err s' called, push_loop) refl
  ]
