-- ===== src/Session.antt =====
-- src/session/state.rs, src/session/timeout.rs and src/session/watchdog.rs. Instants and durations
-- are nanoseconds; a reading of the clock is an argument. The threads that share a session take
-- turns under its mutex, so a run is the sequence of their turns.
pub mod Timeout
pub mod Watchdog
use passx.Base.{
  Bool, List, [], false, if◌then◌else◌, leb, suc, take, true, zero, ℕ, ◌&&◌, ◌*◌, ◌+◌, ◌-◌, ◌∷◌,
}

pub data LockState : Type 0 where
  locked unlocked : LockState

pub record SessionState : Type 0 where
  pub lock_state : LockState
  pub last_activity : ℕ
  pub timeout : ℕ

unfoldable pub new_session : ℕ → ℕ → SessionState
new_session now timeout_secs = record {
  lock_state = locked;
  last_activity = now;
  timeout = timeout_secs * 1000000000;
}

unfoldable pub poke : ℕ → SessionState → SessionState
poke now s = record s { last_activity = now }

-- `Instant::elapsed` stops at zero.
unfoldable pub should_lock : ℕ → SessionState → Bool
should_lock now s = elim s.lock_state [
  | locked ↦ false
  | unlocked ↦ leb s.timeout (now - s.last_activity)
]

unfoldable pub lock : SessionState → SessionState
lock s = record s { lock_state = locked }

unfoldable pub unlock : ℕ → SessionState → SessionState
unfolding poke
unlock now s = poke now (record s { lock_state = unlocked })

-- A session, the clock, and its monitor: whether the thread still loops, and how often it has called
-- `lock_callback`.
pub record Monitored : Type 0 where
  pub session : SessionState
  pub now : ℕ
  pub monitoring : Bool
  pub callbacks : ℕ

unfoldable pub monitor_activity : ℕ → SessionState → Monitored
monitor_activity now s = record { session = s; now = now; monitoring = true; callbacks = 0 }

-- One turn of the loop, after its sleep.
unfoldable pub monitor_turn : Monitored → Monitored
unfolding lock should_lock
monitor_turn w =
    if w.monitoring && should_lock w.now w.session
    then record w { session = lock w.session; monitoring = false; callbacks = suc w.callbacks }
    else w

-- The turns: time passes, the monitor wakes up, and what the program does with the session.
pub data Turn : Type 0 where
  passes : ℕ → Turn
  wakes pokes locks unlocks : Turn

unfoldable pub turn : Turn → Monitored → Monitored
unfolding monitor_turn poke lock unlock
turn (passes n) w = record w { now = w.now + n }
turn wakes w = monitor_turn w
turn pokes w = record w { session = poke w.now w.session }
turn locks w = record w { session = lock w.session }
turn unlocks w = record w { session = unlock w.now w.session }

unfoldable pub run : List Turn → Monitored → Monitored
unfolding turn
run [] w = w
run (t ∷ ts) w = run ts (turn t w)
