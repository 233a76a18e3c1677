-- ===== src/Cpu/Safety.antt =====
-- Safety of the core: with a memory on the bus, every call keeps the ranges of the state, calls no
-- method of a nil interface and never reports a missing memory.
pub mod Registers
pub mod Arms
pub mod Steps
use retronet.Base.{ℕ, ◌<◌, ◌≡◌, refl, arith, Bool, true, false, if◌then◌else◌, Option, none, some}
use retronet.Cpu.Errors.{Error, Result, ok, err, panicked}
use retronet.Cpu.Alu.{AluBackend}
use retronet.Cpu.Bus.{Memory, Io, MemoryLaws, IoLaws}
use retronet.Cpu.State.{Cpu8080}
use retronet.Cpu.State.Valid.{IsValid}
use retronet.Cpu.Core.{
  System, Run, pass, ◌>>=◌, ◌>>◌, pure, fail, get, modify, need_memory, mem_read, mem_write,
  io_input, io_output,
}

-- There is a memory, and it holds what it should.
abbrev pub Holding : {M : Type 0} → (M → Type 0) → Option M → Type 0
Holding Holds none = ⊥
Holding Holds (some m) = Holds m

-- The I/O bus may be nil.
abbrev pub UnlessNil : {P : Type 0} → (P → Type 0) → Option P → Type 0
UnlessNil Holds none = Unit
UnlessNil Holds (some p) = Holds p

-- The errors of a running processor with a memory.
abbrev pub Expected : Error → Type 0
Expected Error.nil_memory = ⊥
Expected _ = Unit

-- A value satisfies `Q`, an error is an expected one, and nothing panics.
abbrev pub Outcome : {A : Type 0} → (A → Type 0) → Result A → Type 0
Outcome Q (ok a) = Q a
Outcome Q (err e) = Expected e
Outcome Q panicked = ⊥

-- What the memory and the I/O bus hold, and the backend that was set.
pub record Contract (M P : Type 0) : Type 1 where
  pub holds_mem : M → Type 0
  pub holds_io : P → Type 0
  pub alu : Option AluBackend

module _ {M P : Type 0} (K : Contract M P) where
  pub record Good (s : System M P) : Type 0 where
    pub valid : IsValid K.alu s.cpu
    pub mem_holds : Holding K.holds_mem s.mem
    pub io_holds : UnlessNil K.holds_io s.io

  -- From a good state `m` ends in a good state, with a value that satisfies `Q` if it succeeds.
  pub record Yields {A : Type 0} (Q : A → Type 0) (m : Run M P A) : Type 0 where
    pub runs : (s : System M P) → Good s → Good (m s).1 × Outcome Q (m s).0

  abbrev pub Keeps : Run M P (Unit {0}) → Type 0
  Keeps m = Yields (λ _. Unit) m

module _ {M P : Type 0} {K : Contract M P} where
  after-pass :
      {A B : Type 0} {Q : A → Type 0} {R : B → Type 0} (x : Result A × System M P)
      (f : A → Run M P B)
      → Good K x.1 × Outcome Q x.0
      → ((a : A) → Q a → Yields K R (f a))
      → Good K (pass x f).1 × Outcome R (pass x f).0
  after-pass (ok a, s) f h next = (next a h.1).runs s h.0
  after-pass (err e, s) f h next = h
  after-pass (panicked, s) f h next = absurd h.1

  pub bind-Yields :
      {A B : Type 0} {Q : A → Type 0} {R : B → Type 0} {m : Run M P A} {f : A → Run M P B}
      → Yields K Q m
      → ((a : A) → Q a → Yields K R (f a))
      → Yields K R (m >>= f)
  bind-Yields {m} {f} first next = record { runs = λ s g. after-pass (m s) f (first.runs s g) next }

  pub then-Yields :
      {B : Type 0} {R : B → Type 0} {m : Run M P (Unit {0})} {n : Run M P B}
      → Keeps K m
      → Yields K R n
      → Yields K R (m >> n)
  then-Yields {m} {n} first next = record {
    runs = λ s g. after-pass (m s) (λ _. n) (first.runs s g) (λ _ _. next);
  }

  pub pure-Yields : {A : Type 0} {Q : A → Type 0} {a : A} → Q a → Yields K Q (pure a)
  pure-Yields h = record { runs = λ s g. (g, h) }

  pub fail-Yields : {A : Type 0} {Q : A → Type 0} (e : Error) → Expected e → Yields K Q (fail e)
  fail-Yields e h = record { runs = λ s g. (g, h) }

  pub get-Yields :
      {A : Type 0} {Q : A → Type 0} (f : Cpu8080 → A)
      → ((c : Cpu8080) → IsValid K.alu c → Q (f c))
      → Yields K Q (get f)
  get-Yields f h = record { runs = λ s g. (g, h s.cpu g.valid) }

  pub modify-Keeps :
      (f : Cpu8080 → Cpu8080)
      → ((c : Cpu8080) → IsValid K.alu c → IsValid K.alu (f c))
      → Keeps K (modify f)
  modify-Keeps f h = record {
    runs = λ s g.
        (record { valid = h s.cpu g.valid; mem_holds = g.mem_holds; io_holds = g.io_holds }, tt);
  }

  pub need_memory-Keeps : Keeps K need_memory
  unfolding need_memory
  need_memory-Keeps = record { runs = λ s g. (ground arith, ground arith) }

  module _ ⦃memory : Memory M⦄ (laws : MemoryLaws memory K.holds_mem) where
    read_option :
        (c : Cpu8080) (o : Option M) (i : Option P) (addr : ℕ)
        → addr < 65536
        → Good K (record { cpu = c; mem = o; io = i })
        → Good K (mem_read addr (record { cpu = c; mem = o; io = i })).1
          × Outcome (λ v. v < 256) (mem_read addr (record { cpu = c; mem = o; io = i })).0
    unfolding mem_read
    read_option c none i addr h g = absurd g.mem_holds
    read_option c (some m) i addr h g = (g, laws.read-lt m addr g.mem_holds h)

    pub mem_read-Yields : (addr : ℕ) → addr < 65536 → Yields K (λ v. v < 256) (mem_read addr)
    mem_read-Yields addr h = record { runs = λ s g. read_option s.cpu s.mem s.io addr h g }

    write_option :
        (c : Cpu8080) (o : Option M) (i : Option P) (addr value : ℕ)
        → addr < 65536
        → value < 256
        → Good K (record { cpu = c; mem = o; io = i })
        → Good K (mem_write addr value (record { cpu = c; mem = o; io = i })).1
          × Outcome (λ _. Unit) (mem_write addr value (record { cpu = c; mem = o; io = i })).0
    unfolding mem_write
    write_option c none i addr value h b g = absurd g.mem_holds
    write_option c (some m) i addr value h b g = (
      record {
        valid = g.valid;
        mem_holds = laws.write-Holds m addr value g.mem_holds h b;
        io_holds = g.io_holds;
      },
      tt,
    )

    pub mem_write-Keeps :
        (addr value : ℕ) → addr < 65536 → value < 256 → Keeps K (mem_write addr value)
    mem_write-Keeps addr value h b = record {
      runs = λ s g. write_option s.cpu s.mem s.io addr value h b g;
    }

  module _ ⦃ports : Io P⦄ (laws : IoLaws ports K.holds_io) where
    input_option :
        (c : Cpu8080) (o : Option M) (i : Option P) (port : ℕ)
        → port < 256
        → Good K (record { cpu = c; mem = o; io = i })
        → Good K (io_input port (record { cpu = c; mem = o; io = i })).1
          × Outcome (λ v. v < 256) (io_input port (record { cpu = c; mem = o; io = i })).0
    unfolding io_input
    input_option c o none port h g = (g, tt)
    input_option c o (some p) port h g = (
      record {
        valid = g.valid;
        mem_holds = g.mem_holds;
        io_holds = laws.input-Holds p port g.io_holds h;
      },
      laws.input-lt p port g.io_holds h,
    )

    pub io_input-Yields : (port : ℕ) → port < 256 → Yields K (λ v. v < 256) (io_input port)
    io_input-Yields port h = record { runs = λ s g. input_option s.cpu s.mem s.io port h g }

    output_option :
        (c : Cpu8080) (o : Option M) (i : Option P) (port value : ℕ)
        → port < 256
        → value < 256
        → Good K (record { cpu = c; mem = o; io = i })
        → Good K (io_output port value (record { cpu = c; mem = o; io = i })).1
          × Outcome (λ _. Unit) (io_output port value (record { cpu = c; mem = o; io = i })).0
    unfolding io_output
    output_option c o none port value h b g = (g, tt)
    output_option c o (some p) port value h b g = (
      record {
        valid = g.valid;
        mem_holds = g.mem_holds;
        io_holds = laws.output-Holds p port value g.io_holds h b;
      },
      tt,
    )

    pub io_output-Keeps :
        (port value : ℕ) → port < 256 → value < 256 → Keeps K (io_output port value)
    io_output-Keeps port value h b = record {
      runs = λ s g. output_option s.cpu s.mem s.io port value h b g;
    }

  pub if-Yields :
      {A : Type 0} {Q : A → Type 0} (b : Bool) {m n : Run M P A}
      → Yields K Q m
      → Yields K Q n
      → Yields K Q (if b then m else n)
  if-Yields true h _ = h
  if-Yields false _ h = h
