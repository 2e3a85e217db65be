-- ===== src/Security/Scans.antt =====
-- What the scans of src/security/anti_injection.rs leave of the threads, and how the monitor of
-- src/security/mod.rs ends.
use passx.Base.{
  All, Bool, Bool-cases, List, [], ap, arith, false, inl, inr, not, refl, retain, some, true, ℕ,
  ◌%◌, ◌&&◌, ◌∙◌, ◌∷◌, ◌≡◌, ◌⊎◌,
}
use passx.Security.{
  is_hijacked, Thread, is_injected, query_access, context_access, scan_threads,
  check_for_injected_threads, check_thread_hijacking, Findings, monitor_pass,
}

scan_threads_verdict : (p : Thread → Bool) (ts : List Thread) → (scan_threads p ts).0 ≡ false
scan_threads_verdict p [] = refl
scan_threads_verdict p (t ∷ ts) = ground (arith, scan_threads_verdict p ts)

pub injected_verdict :
    (pid a w : ℕ) (taken : Bool) (ts : List Thread)
    → (check_for_injected_threads pid a w taken ts).0 ≡ false
unfolding check_for_injected_threads
injected_verdict pid a w taken ts = ground (arith, scan_threads_verdict (is_injected pid a w) ts)

pub hijacked_verdict :
    (pid tid : ℕ) (taken : Bool) (ts : List Thread)
    → (check_thread_hijacking pid tid taken ts).0 ≡ false
unfolding check_thread_hijacking
hijacked_verdict pid tid true ts = refl
hijacked_verdict pid tid false ts = refl

-- What Windows documents of `TerminateThread`: it fails through a handle without THREAD_TERMINATE,
-- which is 1.
abbrev pub NeedsRight : Thread → Type 0
NeedsRight t = (access : ℕ) → access % 2 ≡ 0 → t.terminates access ≡ false

scan_threads_keeps :
    (p : Thread → Bool) (ts : List Thread) → All NeedsRight ts → (scan_threads p ts).1 ≡ ts
scan_threads_keeps p [] h = refl
scan_threads_keeps p (t ∷ ts) h = elim (Bool-cases (p t)) [
  | inl hit ↦ let stays = h.0 query_access refl in rw (hit, stays) refl
  | inr miss ↦ rw miss (ap (◌∷◌ t) (scan_threads_keeps p ts h.1))
]

retain_keeps :
    (p : Thread → Bool) (ts : List Thread)
    → All NeedsRight ts
    → retain (λ t. not (p t && t.terminates context_access)) ts ≡ ts
retain_keeps p [] h = refl
retain_keeps p (t ∷ ts) h =
    let stays = h.0 context_access refl in
    let kept : not (p t && t.terminates context_access) ≡ true = ground arith in
    rw kept (ap (◌∷◌ t) (retain_keeps p ts h.1))

injected_keeps :
    (pid a w : ℕ) (taken : Bool) (ts : List Thread)
    → All NeedsRight ts
    → (check_for_injected_threads pid a w taken ts).1 ≡ ts
unfolding check_for_injected_threads
injected_keeps pid a w taken ts h = ground (arith, scan_threads_keeps (is_injected pid a w) ts h)

hijacked_keeps :
    (pid tid : ℕ) (taken : Bool) (ts : List Thread)
    → All NeedsRight ts
    → (check_thread_hijacking pid tid taken ts).1 ≡ ts
unfolding check_thread_hijacking
hijacked_keeps pid tid true ts h = retain_keeps (is_hijacked pid tid) ts h
hijacked_keeps pid tid false ts h = refl

monitor_pass_keeps :
    (f : Findings) (ts : List Thread) → All NeedsRight ts → (monitor_pass f ts).1 ≡ ts
unfolding monitor_pass
monitor_pass_keeps f ts h =
    let same = injected_keeps f.pid f.load_lib_a f.load_lib_w f.snapshot_ok ts h in
    ground (
      arith,
      same,
      ap (λ x. (check_thread_hijacking f.pid f.current_tid f.snapshot_ok x).1) same,
      hijacked_keeps f.pid f.current_tid f.snapshot_ok ts h,
    )

-- The threads after the passes.
abbrev pub run_passes : List Findings → List Thread → List Thread
run_passes [] ts = ts
run_passes (f ∷ fs) ts = run_passes fs (monitor_pass f ts).1

-- However often the monitor passes, and whatever it finds injected or hijacked, every thread is still
-- there: the handles that it terminates them through lack the right to.
pub passes_keep :
    (fs : List Findings) (ts : List Thread) → All NeedsRight ts → run_passes fs ts ≡ ts
passes_keep [] ts h = refl
passes_keep (f ∷ fs) ts h = ap (run_passes fs) (monitor_pass_keeps f ts h) ∙ passes_keep fs ts h

-- A pass of the monitor exits with the codes 1, 2 and 5 only: whatever threads it finds injected or
-- hijacked, it never exits with the codes 4 and 6 that it has for them.
monitor_pass_exits :
    (f : Findings) (ts : List Thread) {c : ℕ}
    → (monitor_pass f ts).0 ≡ some c
    → (c ≡ 1) ⊎ ((c ≡ 2) ⊎ (c ≡ 5))
unfolding monitor_pass
monitor_pass_exits f ts {c} exits =
    let scan = check_for_injected_threads f.pid f.load_lib_a f.load_lib_w f.snapshot_ok ts in
    ground (
      arith,
      injected_verdict f.pid f.load_lib_a f.load_lib_w f.snapshot_ok ts,
      hijacked_verdict f.pid f.current_tid f.snapshot_ok scan.1,
    )
