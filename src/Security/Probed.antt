-- ===== src/Security/Probed.antt =====
-- The passes of the monitor of src/security/mod.rs over the probes of src/runtime and src/memory.
use passx.Base.{Bytes, List, Option, Text, arith, if◌then◌else◌, none, not, some, true, ◌≡◌}
use passx.Security.{Thread, Findings, monitor_pass, check_for_injected_threads}
use passx.Security.Scans.{injected_verdict, hijacked_verdict}
use passx.Runtime.{LoadedModule, get_current_memory_hash, verify_memory_integrity}
use passx.Runtime.Integrity.{matches_baseline, verify_memory_integrity-get_current_memory_hash}
use passx.Runtime.Probes.{Probes, Processes, check_invariants, security_check}

module _ (sha256 : Bytes → Bytes) (section_name : Bytes → Text) where
  module _ (file_name : Text → Option Text) (to_lowercase : Text → Text) where
    -- `f` has what the monitor asks Windows for of threads, and its own process number.
    abbrev pub findings : Findings → Probes → Processes → LoadedModule → Bytes → Findings
    findings f p w m baseline = record f {
      security_check = security_check p;
      check_invariants = check_invariants file_name to_lowercase w f.pid;
      baseline_set = true;
      verify_memory_integrity = verify_memory_integrity sha256 section_name (some m) baseline;
    }

    -- With a baseline captured and the two magic numbers of the module in place, what a pass does
    -- about the process is a matter of the probes alone, whatever threads there are: it exits with 1
    -- when a debugger or a hypervisor is found, else with 2 when the parent is not one of those
    -- allowed, else with 5 when the code in memory no longer has the hash that was captured, and goes
    -- on otherwise.
    pub monitor_pass-security_check :
        (f : Findings) (p : Probes) (w : Processes) (m : LoadedModule) (baseline : Bytes)
        (ts : List Thread)
        → m.e_magic ≡ 23117
        → m.signature ≡ 17744
        → (monitor_pass (findings f p w m baseline) ts).0 ≡ (
            if security_check p
            then some 1
            else if not (check_invariants file_name to_lowercase w f.pid)
            then some 2
            else if matches_baseline (get_current_memory_hash sha256 section_name (some m)) baseline
            then none
            else some 5)
    unfolding monitor_pass
    monitor_pass-security_check f p w m baseline ts dos pe =
        let scan = check_for_injected_threads f.pid f.load_lib_a f.load_lib_w f.snapshot_ok ts in
        rw (verify_memory_integrity-get_current_memory_hash sha256 section_name m baseline, dos, pe)
          (ground (
            arith,
            injected_verdict f.pid f.load_lib_a f.load_lib_w f.snapshot_ok ts,
            hijacked_verdict f.pid f.current_tid f.snapshot_ok scan.1,
          ))
