-- ===== src/Machine/Profiles/Loading.antt =====
-- `LoadBytes` of machine/profile.go on a memory that has no loader of its own, such as a FlatMemory.
use retronet.Base.{
  ℕ, zero, suc, ◌+◌, ◌<◌, ◌≤◌, ◌≡◌, refl, arith, List, [], ◌∷◌, length, none, some, Bool-cases, inl,
  inr, ◌⊎◌, ltb, get_or, ap, ◌∙◌, u16,
}
use retronet.Cpu.Bus.{Memory, RamLaws}
use native.Mathlib.Decide.{dec_lt}
use retronet.Machine.Errors.{MemoryError}
use retronet.Machine.Memory.{validate_range}
use retronet.Machine.Profiles.Loads.{Loaders, LoadError, write_each, load_into}

module _ {M : Type 0} ⦃memory : Memory M⦄ (laws : RamLaws memory) where
  write_each_outside :
      (addr i : ℕ) (xs : List ℕ) (m : M) (j : ℕ)
      → addr + i + length xs ≤ 65536
      → (j < addr + i) ⊎ (addr + i + length xs ≤ j)
      → memory.read (write_each addr i xs m) j ≡ memory.read m j
  unfolding write_each
  write_each_outside addr i [] m j h away = refl
  write_each_outside addr i (b ∷ rest) m j h away =
      let at = u16 (addr + u16 i) in
      let here : at ≡ addr + i = omega arith in
      let later : (j < addr + (i + 1)) ⊎ (addr + (i + 1) + length rest ≤ j) = elim away [
        | inl l ↦ inl (omega arith)
        | inr r ↦ inr (omega arith)
      ] in
      let differ : j ≡ at → ⊥ =
        λ e. elim away [ inl l ↦ absurd (omega arith) | inr r ↦ absurd (omega arith) ] in
      write_each_outside addr (i + 1) rest (memory.write m at b) j (omega arith) later
      ∙ laws.read-write-other m at b j differ

  write_each_inside :
      (addr i : ℕ) (xs : List ℕ) (m : M) (k : ℕ)
      → addr + i + length xs ≤ 65536
      → k < length xs
      → memory.read (write_each addr i xs m) (addr + i + k) ≡ get_or xs k 0
  unfolding write_each
  write_each_inside addr i [] m k h below = absurd (omega arith)
  write_each_inside addr i (b ∷ rest) m zero h below =
      let at = u16 (addr + u16 i) in
      let here : addr + i + 0 ≡ at = omega arith in
      write_each_outside addr (i + 1) rest (memory.write m at b) (addr + i + 0) (omega arith)
        (inl (omega arith))
      ∙ (ap (memory.read (memory.write m at b)) here ∙ laws.read-write-same m at b)
  write_each_inside addr i (b ∷ rest) m (suc k) h below =
      let next = memory.write m (u16 (addr + u16 i)) b in
      let moved : addr + i + suc k ≡ addr + (i + 1) + k = omega arith in
      ap (memory.read (write_each addr (i + 1) rest next)) moved
      ∙ write_each_inside addr (i + 1) rest next k (omega arith) (omega arith)

  -- The memory reads as the bytes from `addr` on, and as before elsewhere.
  pub record ReadsLoaded (m n : M) (addr : ℕ) (xs : List ℕ) : Type 0 where
    pub inside : (k : ℕ) → k < length xs → memory.read n (addr + k) ≡ get_or xs k 0
    pub outside : (j : ℕ) → (j < addr) ⊎ (addr + length xs ≤ j) → memory.read n j ≡ memory.read m j

  write_each-ReadsLoaded :
      (addr : ℕ) (xs : List ℕ) (m : M)
      → addr + length xs ≤ 65536
      → ReadsLoaded m (write_each addr 0 xs m) addr xs
  write_each-ReadsLoaded addr xs m h =
      let zero_offset : addr + 0 ≡ addr = omega arith in
      record {
        inside = λ k below.
            let moved : addr + k ≡ addr + 0 + k = omega arith in
            ap (memory.read (write_each addr 0 xs m)) moved
            ∙ write_each_inside addr 0 xs m k (omega arith) below;
        outside = λ j away.
            write_each_outside addr 0 xs m j (omega arith)
              (elim away [ inl l ↦ inl (omega arith) | inr r ↦ inr (omega arith) ]);
      }

  module _ ⦃loaders : Loaders M⦄ (plain : loaders.byte_loader ≡ none) where
    load_fits :
        (addr : ℕ) (xs : List ℕ) (m : M)
        → addr + length xs ≤ 65536
        → load_into addr xs (some m) ≡ (none, some (write_each addr 0 xs m))
    unfolding load_into validate_range
    load_fits addr xs m h = ground arith

    load_refused :
        (addr : ℕ) (xs : List ℕ) (m : M)
        → 65536 < addr + length xs
        → (e : LoadError) × (load_into addr xs (some m) ≡ (some e, some m))
    unfolding load_into validate_range
    load_refused addr xs m h = elim (Bool-cases (ltb 65536 (length xs))) [
      | inl e ↦ (LoadError.of_memory (MemoryError.size_exceeds (length xs)), ground arith)
      | inr e ↦ (LoadError.of_memory (MemoryError.range_exceeds addr (length xs)), ground arith)
    ]

    -- `LoadBytes` on a RAM without a loader of its own: bytes that end within the 65536 addresses are
    -- written from the address on, and nothing else; any others are refused with an error, and then the
    -- memory is as it was.
    pub load_into-ReadsLoaded :
        (addr : ℕ) (xs : List ℕ) (m : M)
        → ((addr + length xs ≤ 65536)
            × (n : M) × (load_into addr xs (some m) ≡ (none, some n))
            × ReadsLoaded m n addr xs)
          ⊎ ((65536 < addr + length xs)
              × (e : LoadError) × (load_into addr xs (some m) ≡ (some e, some m)))
    load_into-ReadsLoaded addr xs m = elim (dec_lt 65536 (addr + length xs)) [
      | yes h ↦ (let (e, refused) = load_refused addr xs m h in inr (h, e, refused))
      | no h ↦
          (let fits : addr + length xs ≤ 65536 = omega arith in
            inl (
              fits,
              write_each addr 0 xs m,
              load_fits addr xs m fits,
              write_each-ReadsLoaded addr xs m fits,
            ))
    ]
