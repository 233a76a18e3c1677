-- ===== src/Cpu/Frame.antt =====
-- What an instruction can change, and how it can fail: relations between the state before and after
-- a call that respect its steps.
pub mod Access
pub mod Arms
pub mod Fetch
pub mod Steps
pub mod Outcome
pub mod Effects
pub mod Timing
use retronet.Base.{ℕ, ◌≡◌, refl, arith, Bool, true, false, if◌then◌else◌, Option, none, some}
use retronet.Cpu.Errors.{Error, Result, ok, err, panicked}
use retronet.Cpu.Alu.{AluBackend}
use retronet.Cpu.Opcode.{InstructionTiming}
use retronet.Cpu.State.{Cpu8080, set_pc}
use retronet.Cpu.Bus.{Memory, Io}
use retronet.Cpu.Core.{
  System, Run, pass, ◌>>=◌, ◌>>◌, pure, fail, get, modify, need_memory, mem_read, mem_write,
  io_input, io_output,
}

-- The counters, the timing, the backend, and the flip-flops that hold the processor are the same.
pub record SameBooks (c d : Cpu8080) : Type 0 where
  pub same_instructions : d.instruction_count ≡ c.instruction_count
  pub same_states : d.state_count ≡ c.state_count
  pub same_waits : d.wait_state_count ≡ c.wait_state_count
  pub same_timing : d.last_timing ≡ c.last_timing
  pub same_pending : d.pending_wait_states ≡ c.pending_wait_states
  pub same_alu : d.alu ≡ c.alu

-- The program counter too.
pub record SameControl (c d : Cpu8080) : Type 0 where
  pub books : SameBooks c d
  pub same_pc : d.pc ≡ c.pc

-- There is a memory on the bus.
abbrev pub Present : {M : Type 0} → Option M → Type 0
Present none = ⊥
Present (some _) = Unit

-- A value, or an error that satisfies `E`.
abbrev pub Ends : {A : Type 0} → (Error → Type 0) → Result A → Type 0
Ends E (ok a) = Unit
Ends E (err e) = E e
Ends E panicked = ⊥

module _ {M P : Type 0} where
  -- A relation of states that composes and allows changes of registers and of the I/O bus.
  pub record IsFrame (R : System M P → System M P → Type 0) : Type 0 where
    pub same : (s : System M P) → R s s
    pub compose : (s t u : System M P) → R s t → R t u → R s u
    pub registers :
        (s : System M P) (d : Cpu8080) → SameControl s.cpu d → R s (record s { cpu = d })
    pub ports : (s : System M P) (p : P) → R s (record s { io = some p })

  -- The relation also allows a write to the memory, a jump.
  abbrev pub AllowsWrite : (System M P → System M P → Type 0) → Type 0
  AllowsWrite R = (s : System M P) (m : M) → R s (record s { mem = some m })

  abbrev pub AllowsJump : (System M P → System M P → Type 0) → Type 0
  AllowsJump R = (s : System M P) (addr : ℕ) → R s (record s { cpu = set_pc addr s.cpu })

  -- With a memory on the bus, `m` ends in a state with one that is related to the first, with a value
  -- or with an error that satisfies `E`.
  pub record Relates (R : System M P → System M P → Type 0) (E : Error → Type 0) {A : Type 0}
      (m : Run M P A) : Type 0 where
    pub runs : (s : System M P) → Present s.mem → R s (m s).1 × Present (m s).1.mem × Ends E (m s).0

module _ {M P : Type 0} {R : System M P → System M P → Type 0} (frame : IsFrame R)
    {E : Error → Type 0} where
  Relates-pass :
      {A B : Type 0} (s : System M P) (x : Result A × System M P) (f : A → Run M P B)
      → R s x.1 × Present x.1.mem × Ends E x.0
      → ((a : A) → Relates R E (f a))
      → R s (pass x f).1 × Present (pass x f).1.mem × Ends E (pass x f).0
  Relates-pass s (ok a, t) f h next =
      let (r, p, e) = (next a).runs t h.1 in (frame.compose s t _ h.0 r, p, e)
  Relates-pass s (err e, t) f h next = h
  Relates-pass s (panicked, t) f h next = absurd h.2

  pub bind-Relates :
      {A B : Type 0} {m : Run M P A} {f : A → Run M P B}
      → Relates R E m
      → ((a : A) → Relates R E (f a))
      → Relates R E (m >>= f)
  bind-Relates {m} {f} first next = record {
    runs = λ s p. Relates-pass s (m s) f (first.runs s p) next;
  }

  pub then-Relates :
      {B : Type 0} {m : Run M P (Unit {0})} {n : Run M P B}
      → Relates R E m
      → Relates R E n
      → Relates R E (m >> n)
  then-Relates {m} {n} first next = record {
    runs = λ s p. Relates-pass s (m s) (λ _. n) (first.runs s p) (λ _. next);
  }

  pub pure-Relates : {A : Type 0} (a : A) → Relates R E (pure a)
  pure-Relates a = record { runs = λ s p. (frame.same s, p, tt) }

  pub fail-Relates : {A : Type 0} (e : Error) → E e → Relates R E (fail {A = A} e)
  fail-Relates e h = record { runs = λ s p. (frame.same s, p, h) }

  pub get-Relates : {A : Type 0} (f : Cpu8080 → A) → Relates R E (get f)
  get-Relates f = record { runs = λ s p. (frame.same s, p, tt) }

  pub modify-Relates :
      (f : Cpu8080 → Cpu8080) → ((c : Cpu8080) → SameControl c (f c)) → Relates R E (modify f)
  modify-Relates f h = record { runs = λ s p. (frame.registers s (f s.cpu) (h s.cpu), p, tt) }

  pub jump-Relates : AllowsJump R → (addr : ℕ) → Relates R E (modify (set_pc addr))
  jump-Relates allows addr = record { runs = λ s p. (allows s addr, p, tt) }

  pub if-Relates :
      {A : Type 0} (b : Bool) {m n : Run M P A}
      → Relates R E m
      → Relates R E n
      → Relates R E (if b then m else n)
  if-Relates true h _ = h
  if-Relates false _ h = h

  -- the same where each branch may use the value of the test
  pub split-Relates :
      {A : Type 0} (b : Bool) {m n : Run M P A}
      → (b ≡ true → Relates R E m)
      → (b ≡ false → Relates R E n)
      → Relates R E (if b then m else n)
  split-Relates true h _ = h refl
  split-Relates false _ h = h refl

module _ {M P : Type 0} {R : System M P → System M P → Type 0} (frame : IsFrame R)
    (E : Error → Type 0) where
  Present-need :
      (c : Cpu8080) (o : Option M) (i : Option P)
      → let s : System M P = record { cpu = c; mem = o; io = i } in
        Present o → R s (need_memory s).1 × Present (need_memory s).1.mem × Ends E (need_memory s).0
  unfolding need_memory
  Present-need c none i p = absurd p
  Present-need c (some m) i p = (frame.same _, tt, tt)

  module _ ⦃memory : Memory M⦄ where
    Present-read :
        (addr : ℕ) (c : Cpu8080) (o : Option M) (i : Option P)
        → let s : System M P = record { cpu = c; mem = o; io = i } in
          Present o
          → R s (mem_read addr s).1 × Present (mem_read addr s).1.mem × Ends E (mem_read addr s).0
    unfolding mem_read
    Present-read addr c none i p = absurd p
    Present-read addr c (some m) i p = (frame.same _, tt, tt)

    Present-write :
        (allows : AllowsWrite R) (addr value : ℕ) (c : Cpu8080) (o : Option M) (i : Option P)
        → let s : System M P = record { cpu = c; mem = o; io = i } in
          Present o
          → R s (mem_write addr value s).1
            × Present (mem_write addr value s).1.mem
            × Ends E (mem_write addr value s).0
    unfolding mem_write
    Present-write allows addr value c none i p = absurd p
    Present-write allows addr value c (some m) i p = (allows _ _, tt, tt)

  module _ ⦃ports : Io P⦄ (no_bus : E Error.nil_io) where
    bus_input :
        (port : ℕ) (c : Cpu8080) (o : Option M) (i : Option P)
        → let s : System M P = record { cpu = c; mem = o; io = i } in
          Present o
          → R s (io_input port s).1 × Present (io_input port s).1.mem × Ends E (io_input port s).0
    unfolding io_input
    bus_input port c o none p = (frame.same _, p, no_bus)
    bus_input port c o (some q) p = (frame.ports _ _, p, tt)

    bus_output :
        (port value : ℕ) (c : Cpu8080) (o : Option M) (i : Option P)
        → let s : System M P = record { cpu = c; mem = o; io = i } in
          Present o
          → R s (io_output port value s).1
            × Present (io_output port value s).1.mem
            × Ends E (io_output port value s).0
    unfolding io_output
    bus_output port value c o none p = (frame.same _, p, no_bus)
    bus_output port value c o (some q) p = (frame.ports _ _, p, tt)

module _ {M P : Type 0} {R : System M P → System M P → Type 0} (frame : IsFrame R)
    {E : Error → Type 0} where
  pub need_memory-Relates : Relates R E need_memory
  need_memory-Relates = record { runs = λ s p. Present-need frame E s.cpu s.mem s.io p }

  module _ ⦃memory : Memory M⦄ where
    pub mem_read-Relates : (addr : ℕ) → Relates R E (mem_read addr)
    mem_read-Relates addr = record { runs = λ s p. Present-read frame E addr s.cpu s.mem s.io p }

    pub mem_write-Relates : AllowsWrite R → (addr value : ℕ) → Relates R E (mem_write addr value)
    mem_write-Relates allows addr value = record {
      runs = λ s p. Present-write frame E allows addr value s.cpu s.mem s.io p;
    }

  module _ ⦃ports : Io P⦄ (no_bus : E Error.nil_io) where
    pub io_input-Relates : (port : ℕ) → Relates R E (io_input port)
    io_input-Relates port = record {
      runs = λ s p. bus_input frame E no_bus port s.cpu s.mem s.io p;
    }

    pub io_output-Relates : (port value : ℕ) → Relates R E (io_output port value)
    io_output-Relates port value = record {
      runs = λ s p. bus_output frame E no_bus port value s.cpu s.mem s.io p;
    }
