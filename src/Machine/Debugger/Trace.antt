-- ===== src/Machine/Debugger/Trace.antt =====
-- The trace of machine/debugger.go: its events are numbered one after the other.
use retronet.Base.{
  ℕ, ◌+◌, ◌≡◌, arith, List, [], ◌∷◌, ◌++◌, length, some, ap, ◌∙◌, u64, length-append,
}
use retronet.Cpu.Alu.{I8080}
use retronet.Cpu.Bus.{Memory, Io}
use retronet.Machine.Observed.{MemoryWrite}
use retronet.Machine.Debugger.{IoAccess, TraceEvent, Debugger, Recorder, emit, received}
use retronet.Machine.Debugger.Stepping.{debug_run}
use retronet.Machine.Debugger.Kept.{IsKept, Holds, debug_run-keeps}

-- The events carry the numbers from `first` on, as uint64.
abbrev pub IsNumbered : ℕ → List TraceEvent → Type 0
IsNumbered first [] = Unit {0}
IsNumbered first (e ∷ es) = (e.sequence ≡ u64 first) × IsNumbered (first + 1) es

-- The sink has got events numbered from `first` on, and the next number is the one behind them.
pub record IsTraced {M P : Type 0} (first : ℕ) (d : Debugger M P) : Type 0 where
  pub events : List TraceEvent
  pub received_events : d.sink ≡ some events
  pub numbers : IsNumbered first events
  pub next_number : d.sequence ≡ u64 (first + length events)

IsNumbered-append :
    (first : ℕ) (events : List TraceEvent) (e : TraceEvent)
    → IsNumbered first events
    → e.sequence ≡ u64 (first + length events)
    → IsNumbered first (events ++ e ∷ [])
IsNumbered-append first [] e h n = (n ∙ ap u64 (omega arith), tt)
IsNumbered-append first (x ∷ xs) e h n =
    (h.0, IsNumbered-append (first + 1) xs e h.1 (n ∙ ap u64 (omega arith)))

module _ {M P : Type 0} (first : ℕ) where
  -- What `emit` numbers is the next event.
  emit-IsTraced :
      (event : TraceEvent) (d : Debugger M P) → IsTraced first d → IsTraced first (emit event d).1
  unfolding emit
  emit-IsTraced event d t =
      let e = record event { sequence = d.sequence } in
      record {
        events = t.events ++ e ∷ [];
        received_events = ap (λ s. received s e) t.received_events;
        numbers = IsNumbered-append first t.events e t.numbers t.next_number;
        next_number =
            ap (λ n. u64 (n + 1)) t.next_number ∙ omega (arith, length-append t.events (e ∷ []));
      }

  emit_kept : IsKept {M = M} {P = P} (IsTraced first)
  emit_kept = record {
    panels = λ d q t. record {
      events = t.events;
      received_events = t.received_events;
      numbers = t.numbers;
      next_number = t.next_number;
    };
    events = λ d event t. emit-IsTraced event d t;
  }

  -- The trace of a debugger whose sink has got events numbered one after the other, as uint64, and which
  -- goes on numbering behind them, is so behind every run: no number is left out or used twice, whatever
  -- breakpoints, waits, errors and instructions there are.
  pub debug_run-IsTraced :
      (writes : Recorder MemoryWrite M) (accesses : Recorder IoAccess P) ⦃i8080 : I8080⦄
      ⦃memory : Memory M⦄ ⦃ports : Io P⦄ (limit : ℕ) (d : Debugger M P)
      → IsTraced first d
      → Holds (IsTraced first) (debug_run writes accesses limit d)
  debug_run-IsTraced writes accesses limit d t = debug_run-keeps emit_kept writes accesses limit d t
