-- ===== src/Cpu/Frame/Steps.antt =====
-- The relations that the theorems on `Step` use, and the outcome of a case of `execute8080`.
use retronet.Base.{ℕ, ◌≡◌, refl, arith, Bool, true, false, if◌then◌else◌, Option, none, some, ◌∙◌}
use retronet.Cpu.Errors.{Error, Result, ok, err, panicked}
use retronet.Cpu.Alu.{I8080}
use retronet.Cpu.Bus.{Memory, Io}
use retronet.Cpu.Opcode.{Instruction}
use retronet.Cpu.Dispatch.{Arm}
use retronet.Cpu.State.{Cpu8080}
use retronet.Cpu.Core.{System, io_input, io_output}
use retronet.Cpu.Perform.{perform}
use retronet.Cpu.Frame.{SameBooks, IsFrame, Ends}
use retronet.Cpu.Frame.Arms.{FailsWith, perform-Relates}
use retronet.Cpu.Frame.Fetch.{on_bus}

-- The frames: no condition, the same program counter, the same memory, the same counters.
module _ {M P : Type 0} where
  abbrev pub Anything : System M P → System M P → Type 0
  Anything s t = Unit

  pub Anything-IsFrame : IsFrame Anything
  Anything-IsFrame = record {
    same = λ s. tt;
    compose = λ s t u p q. tt;
    registers = λ s d h. tt;
    ports = λ s p. tt;
  }

  abbrev pub SamePc : System M P → System M P → Type 0
  SamePc s t = t.cpu.pc ≡ s.cpu.pc

  pub SamePc-IsFrame : IsFrame SamePc
  SamePc-IsFrame = record {
    same = λ s. refl;
    compose = λ s t u p q. q ∙ p;
    registers = λ s d h. h.same_pc;
    ports = λ s p. refl;
  }

  abbrev pub SameMem : System M P → System M P → Type 0
  SameMem s t = t.mem ≡ s.mem

  pub SameMem-IsFrame : IsFrame SameMem
  SameMem-IsFrame = record {
    same = λ s. refl;
    compose = λ s t u p q. q ∙ p;
    registers = λ s d h. refl;
    ports = λ s p. refl;
  }

  abbrev pub Bookkeeping : System M P → System M P → Type 0
  Bookkeeping s t = SameBooks s.cpu t.cpu

  pub Bookkeeping-IsFrame : IsFrame Bookkeeping
  Bookkeeping-IsFrame = record {
    same = λ s. ground arith;
    compose = λ s t u p q. ground arith;
    registers = λ s d h. h.books;
    ports = λ s p. ground arith;
  }

unfoldable pub is_nil : {P : Type 0} → Option P → Bool
is_nil none = true
is_nil (some _) = false

unfoldable pub uses_bus : Arm → Bool
uses_bus Arm.input = true
uses_bus Arm.output = true
uses_bus _ = false

-- The outcome of a case for the opcode `code`.
unfoldable pub arm_verdict : {P : Type 0} → Arm → ℕ → Option P → Result (Unit {0})
arm_verdict Arm.input code io = if is_nil io then err Error.nil_io else ok tt
arm_verdict Arm.output code io = if is_nil io then err Error.nil_io else ok tt
arm_verdict Arm.unimplemented code io = err (Error.unimplemented_code code)
arm_verdict _ code io = ok tt

ok_of_Ends : (r : Result (Unit {0})) → Ends (λ _. ⊥) r → r ≡ ok tt
ok_of_Ends (ok tt) h = refl
ok_of_Ends (err e) h = absurd h
ok_of_Ends panicked h = absurd h

module _ {M P : Type 0} ⦃i8080 : I8080⦄ ⦃memory : Memory M⦄ ⦃ports : Io P⦄ where
  perform-Ends :
      (arm : Arm) (code : ℕ) (inst : Instruction) (c : Cpu8080) (m : M) (io : Option P)
      → Ends (FailsWith arm code) (perform arm code inst (on_bus c m io)).0
  perform-Ends arm code inst c m io =
      ((perform-Relates Anything-IsFrame arm code inst (λ _ _ _. tt) (λ _ _ _. tt)).runs
        (on_bus c m io) tt).2

  pub perform-arm_verdict :
      (arm : Arm) (code : ℕ) (inst : Instruction) (c : Cpu8080) (m : M) (io : Option P)
      → (perform arm code inst (on_bus c m io)).0 ≡ arm_verdict arm code io
  unfolding arm_verdict
  perform-arm_verdict Arm.input code inst c m none = unfold perform io_input is_nil in refl
  perform-arm_verdict Arm.input code inst c m (some p) = unfold perform io_input is_nil in refl
  perform-arm_verdict Arm.output code inst c m none = unfold perform io_output is_nil in refl
  perform-arm_verdict Arm.output code inst c m (some p) = unfold perform io_output is_nil in refl
  perform-arm_verdict Arm.unimplemented code inst c m io = unfold perform in refl
  perform-arm_verdict arm code inst c m io = ok_of_Ends _ (perform-Ends arm code inst c m io)
