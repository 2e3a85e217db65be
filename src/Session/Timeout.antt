-- ===== src/Session/Timeout.antt =====
-- When the monitor of src/session/timeout.rs locks a session.
use passx.Base.{
  Bool, Bool-cases, List, [], ap, arith, false, inl, inr, refl, subst, suc, sym, true, ℕ, ◌++◌, ◌+◌,
  ◌<◌, ◌∷◌, ◌≡◌, ◌≤◌,
}
use passx.Session.{
  LockState, locked, unlocked, SessionState, poke, should_lock, lock, unlock, Monitored,
  monitor_turn, Turn, passes, wakes, pokes, locks, unlocks, turn, run,
}

-- The time that passes in a run.
abbrev pub elapsed : List Turn → ℕ
elapsed [] = 0
elapsed (passes n ∷ ts) = n + elapsed ts
elapsed (wakes ∷ ts) = elapsed ts
elapsed (pokes ∷ ts) = elapsed ts
elapsed (locks ∷ ts) = elapsed ts
elapsed (unlocks ∷ ts) = elapsed ts

-- Turns in which the program leaves the session alone.
abbrev pub idle : List Turn → Bool
idle [] = true
idle (passes n ∷ ts) = idle ts
idle (wakes ∷ ts) = idle ts
idle (pokes ∷ ts) = false
idle (locks ∷ ts) = false
idle (unlocks ∷ ts) = false

abbrev pub never_locks : List Turn → Bool
never_locks [] = true
never_locks (locks ∷ ts) = false
never_locks (passes n ∷ ts) = never_locks ts
never_locks (wakes ∷ ts) = never_locks ts
never_locks (pokes ∷ ts) = never_locks ts
never_locks (unlocks ∷ ts) = never_locks ts

-- Locked by a monitor that has ended, which called back `n` times.
pub record IsDone (n : ℕ) (w : Monitored) : Type 0 where
  pub done_locked : w.session.lock_state ≡ locked
  pub done_ended : w.monitoring ≡ false
  pub done_called : w.callbacks ≡ n

-- Open and monitored.
pub record IsOpen (n : ℕ) (w : Monitored) : Type 0 where
  pub open_unlocked : w.session.lock_state ≡ unlocked
  pub open_monitored : w.monitoring ≡ true
  pub open_called : w.callbacks ≡ n

run-IsDone :
    (n : ℕ) (ts : List Turn) (w : Monitored) → idle ts ≡ true → IsDone n w → IsDone n (run ts w)
unfolding run turn monitor_turn
run-IsDone n [] w quiet d = d
run-IsDone n (passes k ∷ ts) w quiet d =
    run-IsDone n ts (turn (passes k) w) quiet (record {
      done_locked = d.done_locked;
      done_ended = d.done_ended;
      done_called = d.done_called;
    })
run-IsDone n (wakes ∷ ts) w quiet d =
    let same : monitor_turn w ≡ w = rw (d.done_ended) refl in rw same (run-IsDone n ts w quiet d)
run-IsDone n (pokes ∷ ts) w quiet d = cc
run-IsDone n (locks ∷ ts) w quiet d = cc
run-IsDone n (unlocks ∷ ts) w quiet d = cc

should_lock_due :
    (now : ℕ) (s : SessionState)
    → s.lock_state ≡ unlocked
    → s.last_activity + s.timeout ≤ now
    → should_lock now s ≡ true
unfolding should_lock
should_lock_due now s opened due = rw opened (ground arith)

should_lock_early :
    (now : ℕ) (s : SessionState)
    → s.last_activity ≤ now
    → now < s.last_activity + s.timeout
    → should_lock now s ≡ false
unfolding should_lock
should_lock_early now s past early =
    elim s.lock_state
      as (λ (l : LockState). should_lock now (record s { lock_state = l }) ≡ false) [
        | locked ↦ refl
        | unlocked ↦ ground arith
      ]

monitor_turn_due :
    (n : ℕ) (w : Monitored)
    → IsOpen n w
    → should_lock w.now w.session ≡ true
    → IsDone (suc n) (monitor_turn w)
unfolding monitor_turn lock
monitor_turn_due n w o due =
    rw (o.open_monitored, due)
      (record { done_locked = refl; done_ended = refl; done_called = ap suc o.open_called })

monitor_turn_early : (w : Monitored) → should_lock w.now w.session ≡ false → monitor_turn w ≡ w
unfolding monitor_turn
monitor_turn_early w early = elim (Bool-cases w.monitoring) [
  | inl on ↦ rw (on, early) refl
  | inr off ↦ rw off refl
]

idle_append : (ts : List Turn) → idle ts ≡ true → idle (ts ++ (wakes ∷ [])) ≡ true
idle_append [] quiet = refl
idle_append (passes k ∷ ts) quiet = idle_append ts quiet
idle_append (wakes ∷ ts) quiet = idle_append ts quiet
idle_append (pokes ∷ ts) quiet = cc
idle_append (locks ∷ ts) quiet = cc
idle_append (unlocks ∷ ts) quiet = cc

-- Once the session is left alone, it is locked with a single callback by the first wake after the
-- timeout.
pub locks_when_idle :
    (n : ℕ) (ts : List Turn) (w : Monitored)
    → IsOpen n w
    → idle ts ≡ true
    → w.session.last_activity + w.session.timeout ≤ w.now + elapsed ts
    → IsDone (suc n) (run (ts ++ (wakes ∷ [])) w)
unfolding run turn
locks_when_idle n [] w o quiet late =
    monitor_turn_due n w o (should_lock_due w.now w.session o.open_unlocked (omega (arith, late)))
locks_when_idle n (passes k ∷ ts) w o quiet late =
    locks_when_idle n ts (turn (passes k) w)
      (record {
        open_unlocked = o.open_unlocked;
        open_monitored = o.open_monitored;
        open_called = o.open_called;
      })
      quiet (omega (arith, late))
locks_when_idle n (wakes ∷ ts) w o quiet late = elim (Bool-cases (should_lock w.now w.session)) [
  | inl due ↦
      run-IsDone (suc n) (ts ++ (wakes ∷ [])) (monitor_turn w) (idle_append ts quiet)
        (monitor_turn_due n w o due)
  | inr early ↦
      subst (λ x. IsDone (suc n) (run (ts ++ (wakes ∷ [])) x)) (sym (monitor_turn_early w early))
        (locks_when_idle n ts w o quiet late)
]
locks_when_idle n (pokes ∷ ts) w o quiet late = cc
locks_when_idle n (locks ∷ ts) w o quiet late = cc
locks_when_idle n (unlocks ∷ ts) w o quiet late = cc

-- Before the timeout has passed since the last activity, a session that is left alone stays open.
run-IsOpen :
    (n : ℕ) (ts : List Turn) (w : Monitored)
    → IsOpen n w
    → w.session.last_activity ≤ w.now
    → idle ts ≡ true
    → w.now + elapsed ts < w.session.last_activity + w.session.timeout
    → IsOpen n (run ts w)
unfolding run turn
run-IsOpen n [] w o past quiet early = o
run-IsOpen n (passes k ∷ ts) w o past quiet early =
    run-IsOpen n ts (turn (passes k) w)
      (record {
        open_unlocked = o.open_unlocked;
        open_monitored = o.open_monitored;
        open_called = o.open_called;
      })
      (omega (arith, past)) quiet (omega (arith, early))
run-IsOpen n (wakes ∷ ts) w o past quiet early =
    subst (λ x. IsOpen n (run ts x))
      (sym (monitor_turn_early w (should_lock_early w.now w.session past (omega (arith, early)))))
      (run-IsOpen n ts w o past quiet early)
run-IsOpen n (pokes ∷ ts) w o past quiet early = cc
run-IsOpen n (locks ∷ ts) w o past quiet early = cc
run-IsOpen n (unlocks ∷ ts) w o past quiet early = cc

stays_unlocked :
    (n : ℕ) (ts : List Turn) (w : Monitored)
    → never_locks ts ≡ true
    → w.session.lock_state ≡ unlocked
    → w.monitoring ≡ false
    → w.callbacks ≡ n
    → ((run ts w).session.lock_state ≡ unlocked) × ((run ts w).callbacks ≡ n)
unfolding run turn poke unlock monitor_turn
stays_unlocked n [] w free opened ended called = (opened, called)
stays_unlocked n (passes k ∷ ts) w free opened ended called =
    stays_unlocked n ts (turn (passes k) w) free opened ended called
stays_unlocked n (wakes ∷ ts) w free opened ended called =
    let same : monitor_turn w ≡ w = rw ended refl in
    subst (λ x. ((run ts x).session.lock_state ≡ unlocked) × ((run ts x).callbacks ≡ n)) (sym same)
      (stays_unlocked n ts w free opened ended called)
stays_unlocked n (pokes ∷ ts) w free opened ended called =
    stays_unlocked n ts (turn pokes w) free opened ended called
stays_unlocked n (locks ∷ ts) w free opened ended called = cc
stays_unlocked n (unlocks ∷ ts) w free opened ended called =
    stays_unlocked n ts (turn unlocks w) free refl ended called

-- A session whose monitor has locked it, and that is unlocked again, stays open however long it is
-- left alone, with no further callback, as long as the program does not lock it.
open_after_monitor :
    (n : ℕ) (ts : List Turn) (w : Monitored)
    → IsDone n w
    → never_locks ts ≡ true
    → ((run ts (turn unlocks w)).session.lock_state ≡ unlocked)
      × ((run ts (turn unlocks w)).callbacks ≡ n)
unfolding turn unlock
open_after_monitor n ts w d free =
    stays_unlocked n ts (turn unlocks w) free refl d.done_ended d.done_called
