-- ===== src/Machine/Observed/Reports.antt =====
-- `ObservableMemory` (machine/observable_memory.go): it is its base, and it reports every write.
use retronet.Cpu.Types.{address_mask}
use retronet.Base.{
  bit_and, ℕ, ◌<◌, ◌≡◌, refl, List, [], ◌∷◌, if◌then◌else◌, ap, subst, sym, ◌∙◌, ==_iff,
}
use retronet.Cpu.Bus.{Memory, MemoryLaws}
use retronet.Machine.Memory.{MemoryBus, memory_bus, bus_read}
use retronet.Machine.Memory.Access.{address_mask_lem, is_writable, bus_read-bus_write}
use retronet.Machine.Peripherals.Check.{All}
use retronet.Machine.Observed.{
  MemoryWrite, WriteObserver, ObservableMemory, report, write_of, observed_read, observed_write,
  observable_memory,
}

-- A write of the processor: an address and a value.
abbrev pub Request : Type 0
Request = ℕ × ℕ

abbrev pub IsRequest : Request → Type 0
IsRequest (addr, value) = addr < 65536

module _ {M : Type 0} ⦃memory : Memory M⦄ where
  abbrev pub write_list : List Request → M → M
  write_list [] m = m
  write_list ((addr, value) ∷ rest) m = write_list rest (memory.write m addr value)

  -- What the writes of a list do to the memory, each seen alone: what was at the address, what was asked
  -- for, and what a read of the address gives behind the write.
  abbrev pub reports : List Request → M → List MemoryWrite
  reports [] m = []
  reports ((addr, value) ∷ rest) m =
      let n = memory.write m addr value in
      record {
        address = addr;
        before = memory.read m addr;
        requested = value;
        after = memory.read n addr;
      }
      ∷ reports rest n

module _ {D : Type 0} where
  -- One write, told to every observer.
  abbrev pub tell : List (WriteObserver D) → MemoryWrite → D → D
  tell [] w d = d
  tell (f ∷ fs) w d = tell fs w (f w d)

  report_lem :
      (observers : List (WriteObserver D)) (w : MemoryWrite) (d : D)
      → report observers w d ≡ tell observers w d
  unfolding report
  report_lem [] w d = refl
  report_lem (f ∷ fs) w d = report_lem fs w (f w d)

  -- Every observer, in the order of the list, on every write, in the order of the writes.
  abbrev pub report_all : List (WriteObserver D) → List MemoryWrite → D → D
  report_all observers [] d = d
  report_all observers (w ∷ ws) d = report_all observers ws (tell observers w d)

module _ {M D : Type 0} ⦃memory : Memory M⦄ where
  abbrev next : ObservableMemory M D → ℕ → ℕ → ObservableMemory M D
  next m addr value = record m {
    base = memory.write m.base addr value;
    watchers =
        tell m.observers
          (record {
            address = addr;
            before = memory.read m.base addr;
            requested = value;
            after = memory.read (memory.write m.base addr value) addr;
          })
          m.watchers;
  }

  one_write :
      (m : ObservableMemory M D) (addr value : ℕ)
      → addr < 65536
      → observed_write m addr value ≡ next m addr value
  unfolding observed_write
  one_write m addr value h =
      told m (bit_and addr address_mask) value
      ∙ ap (λ index. next m index value) (address_mask_lem addr h)
    where
      told :
          (m : ObservableMemory M D) (index value : ℕ)
          → record m {
            base = memory.write m.base index value;
            watchers = report m.observers (write_of m.base index value) m.watchers;
          }
            ≡ next m index value
      told m index value =
          ap (λ w. record m { base = memory.write m.base index value; watchers = w })
            (report_lem m.observers (write_of m.base index value) m.watchers)

  -- Writes to an observed memory do to its base what they do to the base alone, whoever observes them,
  -- and the observers get, in order, what each write found at its address, what was asked for and what
  -- it left there.
  pub write_list-observed_write :
      (xs : List Request) (m : ObservableMemory M D)
      → All IsRequest xs
      → let n = write_list ⦃memory = observable_memory⦄ xs m in
        (n.base ≡ write_list xs m.base)
        × (n.observers ≡ m.observers)
        × (n.watchers ≡ report_all m.observers (reports xs m.base) m.watchers)
  write_list-observed_write [] m h = (refl, refl, refl)
  write_list-observed_write ((addr, value) ∷ rest) m h =
      subst
        (λ (n : ObservableMemory M D).
          let last = write_list ⦃memory = observable_memory⦄ rest n in
          (last.base ≡ write_list rest (memory.write m.base addr value))
          × (last.observers ≡ m.observers)
          × (last.watchers
              ≡ report_all m.observers (reports rest (memory.write m.base addr value))
                  (next m addr value).watchers))
        (sym (one_write m addr value h.0)) (write_list-observed_write rest (next m addr value) h.1)

  -- An observed memory of bytes is a memory of bytes.
  pub observable_memory-MemoryLaws :
      (Holds : M → Type 0)
      → MemoryLaws memory Holds
      → MemoryLaws (observable_memory {D = D}) (λ m. Holds m.base)
  unfolding observed_read
  observable_memory-MemoryLaws Holds laws = record {
    read-lt = λ m addr v h. laws.read-lt m.base addr v h;
    write-Holds = λ m addr value v h b.
        subst (λ (n : ObservableMemory M D). Holds n.base) (sym (one_write m addr value h))
          (laws.write-Holds m.base addr value v h b);
  }

-- What is reported of a mapped bus: the value is left at the address when the cell is mapped and not
-- ROM, and otherwise what was there.
write_of-bus_write :
    (m : MemoryBus) (addr value : ℕ)
    → addr < 65536
    → (write_of ⦃memory = memory_bus⦄ m addr value).after
      ≡ (if is_writable m addr then value else bus_read m addr)
write_of-bus_write m addr value h =
    bus_read-bus_write m addr value addr h h ∙ rw ((==_iff addr addr).1 refl) refl
