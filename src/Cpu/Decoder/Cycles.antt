-- ===== src/Cpu/Decoder/Cycles.antt =====
-- The machine cycles and the states of the decoder's table.
use mathlib.Core.Bool.{beq}
use retronet.Base.{
  ℕ, ◌+◌, ◌*◌, ◌≤◌, ◌<◌, ◌≡◌, ◌↔◌, refl, arith, Bool, true, false, not, ◌&&◌, ◌||◌, ◌==◌, leb, ltb,
  if◌then◌else◌, List, [], ◌∷◌, all_below, all_below_lem, bit_and, length,
}
use retronet.Cpu.Codes.{is_unassigned_opcode}
use retronet.Cpu.Opcode.{MachineCycle, no_cycle, fetch, memory_read, machine_cycles}
use retronet.Cpu.Decoder.{length_for, state_range_for, cycles_for}

abbrev is_used : MachineCycle → Bool
is_used no_cycle = false
is_used _ = true

abbrev is_fetch : MachineCycle → Bool
is_fetch fetch = true
is_fetch _ = false

abbrev is_read : MachineCycle → Bool
is_read memory_read = true
is_read _ = false

abbrev count_of : (MachineCycle → Bool) → List MachineCycle → ℕ
count_of p [] = 0
count_of p (x ∷ xs) = (if p x then 1 else 0) + count_of p xs

abbrev starts_fetch : List MachineCycle → Bool
starts_fetch [] = false
starts_fetch (x ∷ xs) = is_fetch x && (count_of is_fetch xs == 0)

-- The counted cycles of an opcode are `n` used slots that begin with the only fetch; the other slots
-- are empty, and there is a read for each operand byte.
pub record HasCycles (code : ℕ) (cycles : List MachineCycle) (n : ℕ) : Type 0 where
  pub five_slots : length cycles ≡ 5
  pub counted : count_of is_used (machine_cycles n cycles) ≡ n
  pub rest_empty : count_of is_used cycles ≡ n
  pub one_fetch : starts_fetch cycles ≡ true
  pub operand_reads : length_for code ≤ 1 + count_of is_read cycles

has_cycles : ℕ → Bool
has_cycles code =
    let (cycles, n) = cycles_for code in
    length cycles == 5
    && count_of is_used (machine_cycles n cycles) == n
    && count_of is_used cycles == n
    && starts_fetch cycles
    && leb (length_for code) (1 + count_of is_read cycles)

has_cycles_table : all_below 256 has_cycles ≡ true
unfolding all_below has_cycles cycles_for machine_cycles
has_cycles_table = refl

-- Every opcode has well-formed cycles: five slots, of which as many as are counted are used, and those
-- come first; the first is the fetch, and there is a read for each operand byte.
cycles_for-HasCycles :
    (code : ℕ) → code < 256 → HasCycles code (cycles_for code).0 (cycles_for code).1
unfolding has_cycles
cycles_for-HasCycles code h = ground (arith, all_below_lem 256 has_cycles code has_cycles_table h)

-- The states of an opcode: at least three for each counted cycle and one more, none for an unassigned
-- opcode, and fewer when not taken for the conditional calls and returns alone.
pub record HasStates (code : ℕ) (least most : ℕ) : Type 0 where
  pub enough : is_unassigned_opcode code ≡ false → 3 * (cycles_for code).1 + 1 ≤ most
  pub unassigned : is_unassigned_opcode code ≡ true → most ≡ 0
  pub conditional :
      (least < most) ↔ ((bit_and code 0xC7 == 0xC0 || bit_and code 0xC7 == 0xC4) ≡ true)
  pub saved : least < most → most ≡ least + 6
  pub ordered : least ≤ most

has_states : ℕ → Bool
has_states code =
    let (least, most) = state_range_for code in
    (is_unassigned_opcode code || leb (3 * (cycles_for code).1 + 1) most)
    && (not (is_unassigned_opcode code) || most == 0)
    && beq (ltb least most) (bit_and code 0xC7 == 0xC0 || bit_and code 0xC7 == 0xC4)
    && (not (ltb least most) || most == least + 6)
    && leb least most

has_states_table : all_below 256 has_states ≡ true
unfolding all_below has_states state_range_for cycles_for
has_states_table = refl

-- Every opcode has well-formed states: an assigned one has at least three for each counted cycle and
-- one more, an unassigned one has none, and the conditional calls and returns, and
-- they alone, take six fewer when the condition does not hold.
state_range_for-HasStates :
    (code : ℕ) → code < 256 → HasStates code (state_range_for code).0 (state_range_for code).1
unfolding has_states
state_range_for-HasStates code h =
    ground (arith, all_below_lem 256 has_states code has_states_table h)
