-- ===== src/Tests/Samples.antt =====
-- Concrete packages, processors, memories and buses for the tests.
use retronet.Base.{
  ℕ, zero, suc, ◌<◌, ◌≡◌, refl, arith, Bool, true, false, if◌then◌else◌, ◌==◌, bit_and, List, [],
  ◌∷◌, get_or, Option, some, ◌-◌, ltb, leb, ◌&&◌,
}
use retronet.Cpu.Alu.{
  Flags, I8080, AluBackend, IsEncoded, native, native_add, native_sub, native_add16,
}
use retronet.Cpu.State.{Cpu8080, zeroed, chosen}
use retronet.Cpu.State.Valid.{IsValid, IsSound}
use retronet.Cpu.State.Native.{native-IsSound}
use retronet.Cpu.Bus.{FlatMemory, new_ports}
use retronet.Cpu.Bus.Flat.{IsBytes, IsLatched}

abbrev sample_alu : ℕ → ℕ → ℕ → Bool → ℕ × Flags
sample_alu g a v cy =
    if bit_and g 7 == 0
    then native_add a v false
    else if bit_and g 7 == 1
    then native_add a v cy
    else if bit_and g 7 == 3
    then native_sub a v cy
    else native_sub a v false

-- A package i8080 with the group codes of the opcodes.
abbrev pub sample_package : I8080
sample_package = record {
  group_add = 0;
  group_adc = 1;
  group_sub = 2;
  group_sbb = 3;
  group_ana = 4;
  group_xra = 5;
  group_ora = 6;
  group_cmp = 7;
  alu = sample_alu;
  increment = λ v. native_add v 1 false;
  decrement = λ v. native_sub v 1 false;
  add16 = native_add16;
}

pub sample_package-IsEncoded : IsEncoded sample_package
sample_package-IsEncoded = record {
  add_code = refl;
  adc_code = refl;
  sub_code = refl;
  sbb_code = refl;
  ana_code = refl;
  xra_code = refl;
  ora_code = refl;
  cmp_code = refl;
}

abbrev pub sample_backend : Option AluBackend
sample_backend = some (native ⦃i8080 = sample_package⦄)

pub sample_backend-IsSound : IsSound (chosen ⦃i8080 = sample_package⦄ sample_backend)
unfolding chosen
sample_backend-IsSound = native-IsSound ⦃i8080 = sample_package⦄ sample_package-IsEncoded

-- A processor at 0x0100 with the native backend.
abbrev pub sample_cpu : Cpu8080
sample_cpu = record (zeroed sample_backend) {
  a = 0x47;
  b = 0x12;
  c = 0x34;
  h = 0x20;
  l = 0x10;
  carry = true;
  sign = true;
  pc = 0x0100;
  sp = 0x2400;
}

pub sample_cpu-IsValid : IsValid sample_backend sample_cpu
sample_cpu-IsValid = record {
  a-lt = omega arith;
  b-lt = omega arith;
  c-lt = omega arith;
  d-lt = omega arith;
  e-lt = omega arith;
  h-lt = omega arith;
  l-lt = omega arith;
  pc-lt = omega arith;
  sp-lt = omega arith;
  instructions-lt = omega arith;
  states-lt = omega arith;
  waits-lt = omega arith;
  pending-lt = omega arith;
  same_alu = refl;
}

-- A program at 0x0100: MVI B,3; STA 2000; DCR B; JNZ 0102; HLT.
abbrev program : List ℕ
program = 0x06 ∷ 0x03 ∷ 0x32 ∷ 0x00 ∷ 0x20 ∷ 0x05 ∷ 0xC2 ∷ 0x02 ∷ 0x01 ∷ 0x76 ∷ []

abbrev pub sample_memory : FlatMemory
sample_memory = record {
  bytes = λ i. if leb 0x0100 i && ltb i 0x010A then get_or program (i - 0x0100) 0 else 0;
}

all_bytes : List ℕ → Bool
all_bytes [] = true
all_bytes (x ∷ xs) = ltb x 256 && all_bytes xs

get_or-lt : (xs : List ℕ) (i : ℕ) → all_bytes xs ≡ true → get_or xs i 0 < 256
unfolding all_bytes
get_or-lt [] i h = omega arith
get_or-lt (x ∷ xs) zero h = ground arith
get_or-lt (x ∷ xs) (suc i) h = get_or-lt xs i (ground arith)

program-lt : (i : ℕ) → get_or program i 0 < 256
unfolding all_bytes
program-lt i = get_or-lt program i refl

pub sample_memory-IsBytes : IsBytes sample_memory
sample_memory-IsBytes = record { cell = λ i. ground (arith, program-lt (i - 0x0100)) }

pub new_ports-IsLatched : IsLatched new_ports
new_ports-IsLatched = record { input_latch = λ i. omega arith; output_latch = λ i. omega arith }
