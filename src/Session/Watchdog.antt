-- ===== src/Session/Watchdog.antt =====
-- src/session/watchdog.rs. Timestamps are seconds since the epoch; the clock of the system can be
-- set back, so the readings in a run are in no order.
use passx.Base.{
  Bool, Bool-cases, List, Option, [], any, ap, arith, false, if◌then◌else◌, inl, inr, is_some, ltb,
  none, refl, some, true, unwrap_or, ℕ, ◌+◌, ◌-◌, ◌∙◌, ◌∷◌, ◌≡◌,
}

-- The heartbeat, whether `panic_action` was called, and the code the process ended with.
pub record Watchdog : Type 0 where
  pub heartbeat : ℕ
  pub panicked : Bool
  pub exit_code : Option ℕ

-- `current_timestamp` over the result of `duration_since`: a clock before the epoch reads as zero.
abbrev pub current_timestamp : Option ℕ → ℕ
current_timestamp since_epoch = unwrap_or 0 since_epoch

unfoldable pub new_watchdog : Option ℕ → Watchdog
new_watchdog clock = record {
  heartbeat = current_timestamp clock;
  panicked = false;
  exit_code = none;
}

unfoldable pub beat : Option ℕ → Watchdog → Watchdog
beat clock w = record w { heartbeat = current_timestamp clock }

-- One turn of the loop of `start_watcher`, after its sleep, with a `panic_action` that returns.
unfoldable pub watch : ℕ → Option ℕ → Watchdog → Watchdog
watch timeout_secs clock w =
    if ltb timeout_secs (current_timestamp clock - w.heartbeat)
    then record w { panicked = true; exit_code = some 7 }
    else w

pub data WatchTurn : Type 0 where
  beats watches : Option ℕ → WatchTurn

-- A process that has ended takes no turn.
unfoldable pub watch_run : ℕ → List WatchTurn → Watchdog → Watchdog
unfolding beat watch
watch_run timeout_secs [] w = w
watch_run timeout_secs (t ∷ ts) w = elim w.exit_code [
  | some code ↦ w
  | none ↦ elim t [
    | beats clock ↦ watch_run timeout_secs ts (beat clock w)
    | watches clock ↦ watch_run timeout_secs ts (watch timeout_secs clock w)
  ]
]

abbrev pub frozen : List (Option ℕ) → List WatchTurn
frozen [] = []
frozen (c ∷ cs) = watches c ∷ frozen cs

-- A reading later than the timeout after the last beat.
abbrev pub overdue : ℕ → ℕ → Option ℕ → Bool
overdue timeout_secs last clock = ltb (last + timeout_secs) (current_timestamp clock)

abbrev pub ended : Watchdog → Bool
ended w = is_some w.exit_code

watch_run-ended :
    (n : ℕ) (ts : List WatchTurn) (w : Watchdog) {c : ℕ}
    → w.exit_code ≡ some c
    → watch_run n ts w ≡ w
unfolding watch_run
watch_run-ended n [] w h = refl
watch_run-ended n (t ∷ ts) w h = rw h refl

watch_run-watches :
    (n : ℕ) (c : Option ℕ) (ts : List WatchTurn) (w : Watchdog)
    → w.exit_code ≡ none
    → watch_run n (watches c ∷ ts) w ≡ watch_run n ts (watch n c w)
unfolding watch_run
watch_run-watches n c ts w alive = rw alive refl

watch_late :
    (n : ℕ) (c : Option ℕ) (w : Watchdog)
    → overdue n w.heartbeat c ≡ true
    → (watch n c w).exit_code ≡ some 7
unfolding watch
watch_late n c w late =
    let due : ltb n (current_timestamp c - w.heartbeat) ≡ true = ground arith in rw due refl

watch_early :
    (n : ℕ) (c : Option ℕ) (w : Watchdog) → overdue n w.heartbeat c ≡ false → watch n c w ≡ w
unfolding watch
watch_early n c w early =
    let due : ltb n (current_timestamp c - w.heartbeat) ≡ false = ground arith in rw due refl

-- From a running process in which the watched thread beats no more, the watcher ends the process
-- exactly when one of its readings of the clock is later than the timeout after the last beat.
pub ends_when_frozen :
    (timeout_secs : ℕ) (clocks : List (Option ℕ)) (w : Watchdog)
    → w.exit_code ≡ none
    → ended (watch_run timeout_secs (frozen clocks) w)
      ≡ any (overdue timeout_secs w.heartbeat) clocks
unfolding watch_run
ends_when_frozen n [] w alive = ap (λ x. is_some x) alive
ends_when_frozen n (c ∷ cs) w alive = elim (Bool-cases (overdue n w.heartbeat c)) [
  | inl late ↦
      let gone = watch_late n c w late in
      ap ended (
        watch_run-watches n c (frozen cs) w alive
        ∙ watch_run-ended n (frozen cs) (watch n c w) gone)
      ∙ (ap (λ x. is_some x) gone ∙ rw late refl)
  | inr early ↦
      ap ended (watch_run-watches n c (frozen cs) w alive)
      ∙ (ap (λ x. ended (watch_run n (frozen cs) x)) (watch_early n c w early)
          ∙ (ends_when_frozen n cs w alive ∙ rw early refl))
]
