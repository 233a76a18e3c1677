-- ===== src/Cpu/Core.antt =====
-- The processor with the buses that a call is given, and the calls as a state monad: an error or
-- a panic keeps the state that was reached, as the pointers of the source do.
use retronet.Base.{ℕ, Option, none, some}
use retronet.Cpu.Errors.{Error, Result, ok, err, panicked}
use retronet.Cpu.State.{Cpu8080}
use retronet.Cpu.Bus.{Memory, Io}

-- `none` is a nil interface.
pub record System (M P : Type 0) : Type 0 where
  pub cpu : Cpu8080
  pub mem : Option M
  pub io : Option P

abbrev pub Run : Type 0 → Type 0 → Type 0 → Type 0
Run M P A = System M P → Result A × System M P

module _ {M P : Type 0} where
  abbrev pub pass : {A B : Type 0} → Result A × System M P → (A → Run M P B) → Result B × System M P
  pass (ok a, s) f = f a s
  pass (err e, s) f = (err e, s)
  pass (panicked, s) f = (panicked, s)

  infixl 5 ◌>>=◌ ◌>>◌
  abbrev pub ◌>>=◌ : {A B : Type 0} → Run M P A → (A → Run M P B) → Run M P B
  ◌>>=◌ m f s = pass (m s) f

  abbrev pub ◌>>◌ : {B : Type 0} → Run M P (Unit {0}) → Run M P B → Run M P B
  ◌>>◌ m k s = pass (m s) (λ _. k)

  abbrev pub pure : {A : Type 0} → A → Run M P A
  pure a s = (ok a, s)

  abbrev pub fail : {A : Type 0} → Error → Run M P A
  fail e s = (err e, s)

  -- reads and assignments of fields of the processor
  abbrev pub get : {A : Type 0} → (Cpu8080 → A) → Run M P A
  get f s = (ok (f s.cpu), s)

  abbrev pub modify : (Cpu8080 → Cpu8080) → Run M P (Unit {0})
  modify f s = (ok tt, record s { cpu = f s.cpu })

  -- `if mem == nil { return ErrNilMemory }`
  unfoldable pub need_memory : Run M P (Unit {0})
  need_memory s = elim s.mem [ none ↦ (err Error.nil_memory, s) | some _ ↦ (ok tt, s) ]

  -- mem.Read and mem.Write
  module _ ⦃memory : Memory M⦄ where
    unfoldable pub mem_read : ℕ → Run M P ℕ
    mem_read addr s = elim s.mem [ none ↦ (panicked, s) | some m ↦ (ok (memory.read m addr), s) ]

    unfoldable pub mem_write : ℕ → ℕ → Run M P (Unit {0})
    mem_write addr value s = elim s.mem [
      | none ↦ (panicked, s)
      | some m ↦ (ok tt, record s { mem = some (memory.write m addr value) })
    ]

  -- io.Input and io.Output after the test `if io == nil { return ErrNilIO }`
  module _ ⦃ports : Io P⦄ where
    unfoldable pub io_input : ℕ → Run M P ℕ
    io_input port s = elim s.io [
      | none ↦ (err Error.nil_io, s)
      | some p ↦ (ok (ports.input p port).0, record s { io = some (ports.input p port).1 })
    ]

    unfoldable pub io_output : ℕ → ℕ → Run M P (Unit {0})
    io_output port value s = elim s.io [
      | none ↦ (err Error.nil_io, s)
      | some p ↦ (ok tt, record s { io = some (ports.output p port value) })
    ]
