-- ===== src/Machine/Debugger/Unset.antt =====
-- A debugger (machine/debugger.go) without breakpoints and watchpoints: it gives no reason to stop.
use retronet.Base.{
  ℕ, ◌≡◌, refl, arith, Bool, false, ◌&&◌, if◌then◌else◌, List, [], ◌∷◌, Option, none, some,
}
use retronet.Machine.Peripherals.{IoDirection}
use retronet.Machine.Observed.{MemoryWrite}
use retronet.Machine.FrontPanel.{PanelStopReason}
use retronet.Machine.Debugger.{
  DebugStopReason, IoAccess, BreakpointReason, TraceEvent, Debugger, Recorder, breakpoint_reason,
  hit_memory_watchpoint, hit_io_breakpoint, has_bytes, is_breaking,
}
use retronet.Machine.Debugger.Stepping.{executed_reason}

-- No breakpoint and no watchpoint is set.
pub record IsUnset {M P : Type 0} (d : Debugger M P) : Type 0 where
  pub no_pc : (addr : ℕ) → d.pc_breakpoints addr ≡ false
  pub no_opcode : (code : ℕ) → d.opcode_breakpoints code ≡ false
  pub no_memory : (addr : ℕ) → d.memory_watchpoints addr ≡ false
  pub no_input : (port : ℕ) → d.input_breakpoints port ≡ false
  pub no_output : (port : ℕ) → d.output_breakpoints port ≡ false

-- A recorder that has nothing to clear, as that of a memory which is no ObservableMemory.
pub record IsBlank {A S : Type 0} (recorder : Recorder A S) : Type 0 where
  pub keeps : (s : S) → recorder.cleared s ≡ s

module _ {M P : Type 0} where
  pub reason_unset :
      (d : Debugger M P) (event : TraceEvent) → IsUnset d → breakpoint_reason d event ≡ none
  unfolding breakpoint_reason
  reason_unset d event u =
      by_tests (d.pc_breakpoints event.pc) (has_bytes event.bytes)
        (d.opcode_breakpoints event.opcode) (u.no_pc event.pc) (u.no_opcode event.opcode)
    where
      by_tests :
          (a b c : Bool)
          → a ≡ false
          → c ≡ false
          → ◌≡◌ {A = Option BreakpointReason}
              (if a
                then some (BreakpointReason.at_pc event.pc)
                else if b && c
                then some (BreakpointReason.at_opcode event.opcode)
                else none)
              none
      by_tests a b c p q = ground arith

  memory_unset :
      (d : Debugger M P) (ws : List MemoryWrite) → IsUnset d → hit_memory_watchpoint d ws ≡ false
  unfolding hit_memory_watchpoint
  memory_unset d [] u = refl
  memory_unset d (w ∷ ws) u = rw (u.no_memory w.address) (memory_unset d ws u)

  breaking_unset : (d : Debugger M P) (a : IoAccess) → IsUnset d → is_breaking d a ≡ false
  breaking_unset d a u = by_direction a.direction
    where
      by_direction :
          (x : IoDirection)
          → (elim x as (λ _. Bool) [
            | IoDirection.input ↦ d.input_breakpoints a.port
            | IoDirection.output ↦ d.output_breakpoints a.port
          ])
            ≡ false
      by_direction IoDirection.input = u.no_input a.port
      by_direction IoDirection.output = u.no_output a.port

  io_unset : (d : Debugger M P) (xs : List IoAccess) → IsUnset d → hit_io_breakpoint d xs ≡ false
  unfolding hit_io_breakpoint
  io_unset d [] u = refl
  io_unset d (a ∷ rest) u = rw (breaking_unset d a u) (io_unset d rest u)

  -- The reason behind an instruction is then that of the panel: the processor has stopped, or none.
  pub executed_reason_unset :
      (d : Debugger M P) (ws : List MemoryWrite) (xs : List IoAccess) (cause : PanelStopReason)
      → IsUnset d
      → executed_reason d ws xs cause ≡ (elim cause as (λ _. DebugStopReason) [
        | PanelStopReason.stopped_by_cpu ↦ DebugStopReason.stopped_cpu
        | _ ↦ DebugStopReason.continue
      ])
  unfolding executed_reason
  executed_reason_unset d ws xs cause u =
      by_hits (hit_memory_watchpoint d ws) (hit_io_breakpoint d xs) _ (memory_unset d ws u)
        (io_unset d xs u)
    where
      by_hits :
          (a b : Bool) (r : DebugStopReason)
          → a ≡ false
          → b ≡ false
          → (if a
              then DebugStopReason.stopped_watchpoint
              else if b
              then DebugStopReason.stopped_io
              else r)
            ≡ r
      by_hits a b r p q = ground arith
