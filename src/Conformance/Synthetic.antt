-- ===== src/Conformance/Synthetic.antt =====
-- conformance/synthetic.go: the cases that need no ROM and no profile.
use Prim.Native.String.{String}
use retronet.Base.{
  ℕ, zero, suc, ◌+◌, ◌*◌, bit_and, Bool, true, false, not, ◌&&◌, ◌==◌, List, [], ◌∷◌, set, Option,
  none, some,
}
use retronet.Cpu.Errors.{Error, ok, err, panicked}
use retronet.Cpu.Types.{reg_a, reg_b, reg_m, pair_hl, cond_nc, cond_c}
use retronet.Cpu.Encode.{
  mvi, mov, hlt, adi, lxi, call, ret, jump_on, call_on, rlc, in_port, out_port, rst, nop,
}
use retronet.Cpu.Bus.{flat_memory}
use retronet.Cpu.State.{Cpu8080}
use retronet.Machine.FrontPanel.{request_interrupt, set_ready}
use retronet.Machine.Callbacks.{set_input, output_value}
use retronet.Machine.Terminal.{terminal_output_port}
use retronet.Machine.Observed.{observed_read}
use retronet.Machine.Debugger.{DebugStopReason, DebugRunResult}
use retronet.Conformance.{CaseError, Case, Context}

abbrev cpu_of : Context → Cpu8080
cpu_of context = context.panel.system.cpu

-- a read of the memory of the case, 0 for a memory that is nil
abbrev memory_at : Context → ℕ → ℕ
memory_at context addr = elim context.panel.system.mem [
  | none ↦ 0
  | some m ↦ observed_read ⦃memory = flat_memory⦄ m addr
]

-- an error where the test does not hold
abbrev expected : Bool → Option CaseError
expected true = none
expected false = some CaseError.mismatch

abbrev is_stopped_cpu : DebugStopReason → Bool
is_stopped_cpu DebugStopReason.stopped_cpu = true
is_stopped_cpu _ = false

abbrev is_limit : DebugStopReason → Bool
is_limit DebugStopReason.stopped_limit = true
is_limit _ = false

abbrev is_waiting : DebugStopReason → Bool
is_waiting DebugStopReason.stopped_waiting = true
is_waiting _ = false

abbrev map_error : {A : Type 0} → (A → CaseError) → Option A → Option CaseError
map_error f none = none
map_error f (some e) = some (f e)

-- a case without the fields that are zero in most of them
abbrev plain : String → List ℕ → (Context → DebugRunResult → Option CaseError) → Case
plain name program verify = record {
  name = name;
  program = program;
  load_address = 0;
  start_pc = 0;
  step_limit = 0;
  setup = none;
  verify = some verify;
}

unfoldable load_move : Case
load_move = plain "load-move" (mvi reg_a ∷ 0x2A ∷ mov reg_b reg_a ∷ hlt ∷ []) (λ context run.
    let c = cpu_of context in expected (c.a == 0x2A && c.b == 0x2A && is_stopped_cpu run.reason))

unfoldable alu_flags : Case
alu_flags = plain "alu-flags" (mvi reg_a ∷ 0xFF ∷ adi ∷ 0x01 ∷ hlt ∷ []) (λ context run.
    let c = cpu_of context in
    expected (c.a == 0 && c.carry && c.zero_flag && not c.sign && c.parity && c.auxiliary_carry))

unfoldable memory_indirect : Case
memory_indirect =
    plain "memory-indirect"
      (lxi pair_hl ∷ 0x00 ∷ 0x01 ∷ mvi reg_m ∷ 0xA5 ∷ mov reg_a reg_m ∷ hlt ∷ [])
      (λ context run. expected ((cpu_of context).a == 0xA5 && memory_at context 0x0100 == 0xA5))

unfoldable call_return : Case
call_return =
    plain "call-return" (call ∷ 0x06 ∷ 0x00 ∷ hlt ∷ 0x00 ∷ 0x00 ∷ mvi reg_a ∷ 0x42 ∷ ret ∷ [])
      (λ context run.
        let c = cpu_of context in expected (c.a == 0x42 && c.sp == 0 && c.pc == 0x0004))

unfoldable conditional_jump_taken : Case
conditional_jump_taken =
    plain "conditional-jump-taken" (jump_on cond_nc ∷ 0x06 ∷ 0x00 ∷ hlt ∷ 0x00 ∷ 0x00 ∷ hlt ∷ [])
      (λ context run. expected ((cpu_of context).pc == 0x0007))

unfoldable conditional_call_not_taken_timing : Case
conditional_call_not_taken_timing =
    plain "conditional-call-not-taken-timing"
      (call_on cond_c ∷ 0x06 ∷ 0x00 ∷ hlt ∷ 0x00 ∷ 0x00 ∷ hlt ∷ [])
      (λ context run. expected ((cpu_of context).state_count == 18))

unfoldable rotate_carry : Case
rotate_carry =
    plain "rotate-carry" (mvi reg_a ∷ 0x81 ∷ rlc ∷ hlt ∷ [])
      (λ context run. let c = cpu_of context in expected (c.a == 0x03 && c.carry))

-- `ctx.IO.SetInput(0, 0x5A)`; a bus of none is nil
abbrev set_input_0 : Context → Option CaseError × Context
set_input_0 context = elim context.panel.system.io [
  | none ↦ (some (CaseError.of_cpu Error.nil_io), context)
  | some io ↦
      (let (e, next) = set_input 0 0x5A io in
        (
          map_error CaseError.of_cpu e,
          record context {
            panel = record context.panel {
              system = record context.panel.system { io = some next };
            };
          },
        ))
]

abbrev echoed : Context → Option CaseError
echoed context = elim context.panel.system.io [
  | none ↦ some (CaseError.of_cpu Error.nil_io)
  | some io ↦ elim (output_value io terminal_output_port) [
    | ok output ↦ expected ((cpu_of context).a == 0x5A && output == 0x5A)
    | err e ↦ some (CaseError.of_cpu e)
    | panicked ↦ some CaseError.mismatch
  ]
]

unfoldable io_echo : Case
unfolding set_input output_value
io_echo =
    record (plain "io-echo" (in_port ∷ 0x00 ∷ out_port ∷ terminal_output_port ∷ hlt ∷ [])
      (λ context run. echoed context)) { setup = some set_input_0 }

-- the loop of `restartRing`, with the rounds left
unfoldable restart_loop : ℕ → ℕ → List ℕ → List ℕ
restart_loop zero vector program = program
restart_loop (suc left) vector program =
    restart_loop left (vector + 1) (set program (vector * 8) (rst (bit_and (vector + 1) 0x07)))

unfoldable zero_bytes : ℕ → List ℕ
zero_bytes zero = []
zero_bytes (suc n) = 0 ∷ zero_bytes n

unfoldable restart_ring : List ℕ
unfolding restart_loop zero_bytes
restart_ring = restart_loop 8 0 (zero_bytes 64)

unfoldable interrupt_program : List ℕ
unfolding zero_bytes
interrupt_program = set (set (zero_bytes 9) 0 nop) 8 hlt

unfoldable rst_ring : Case
unfolding restart_ring
rst_ring =
    record (plain "rst-ring" restart_ring
      (λ context run. expected (is_limit run.reason && (cpu_of context).sp == 0xFFF0))) {
        step_limit = 8;
      }

abbrev interrupt_1 : Context → Option CaseError × Context
interrupt_1 context =
    let (e, next) = request_interrupt (rst 1) [] context.panel in
    (map_error CaseError.of_panel e, record context { panel = next })

unfoldable interrupt_rst_case : Case
unfolding interrupt_program request_interrupt
interrupt_rst_case =
    record (plain "interrupt-rst" interrupt_program (λ context run.
      expected
        (run.steps == 2 && (cpu_of context).sp == 0xFFFE && memory_at context 0xFFFE == 0x00))) {
          setup = some interrupt_1;
        }

unfoldable ready_wait : Case
unfolding set_ready
ready_wait =
    record (plain "ready-wait" (nop ∷ []) (λ context run.
      expected
        (is_waiting run.reason && run.steps == 0 && (cpu_of context).wait_state_count == 1))) {
          setup =
              some (λ context. (none, record context { panel = set_ready false context.panel }));
        }

-- SyntheticSuite
unfoldable pub synthetic_suite : List Case
unfolding load_move alu_flags memory_indirect call_return conditional_jump_taken
    conditional_call_not_taken_timing rotate_carry io_echo rst_ring interrupt_rst_case ready_wait
synthetic_suite =
    load_move ∷ alu_flags ∷ memory_indirect ∷ call_return ∷ conditional_jump_taken
    ∷ conditional_call_not_taken_timing ∷ rotate_carry ∷ io_echo ∷ rst_ring ∷ interrupt_rst_case
    ∷ ready_wait ∷ []
