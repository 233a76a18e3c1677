-- ===== src/Cpu/Execute/Stack.antt =====
-- The stack (cpu/execute.go): PUSH and POP, CALL and RET, XTHL, on a memory that is RAM.
use retronet.Base.{
  ℕ, ◌<◌, ◌≡◌, refl, arith, if◌then◌else◌, ◌==◌, ==_iff, Option, Bool-cases, inl, inr, u8, shr,
  add16, dec16, word, word-high, word-low, word_bytes, word-lt, ap₂, ◌∙◌,
}
use retronet.Cpu.Errors.{ok}
use retronet.Cpu.Types.{pair_bc, pair_de, pair_hl}
use retronet.Cpu.Alu.{AluBackend}
use retronet.Cpu.Bus.{Memory, RamLaws}
use retronet.Cpu.State.{
  Cpu8080, set_pc, hl, bc, de, set_hl, set_bc, set_de, flags_byte, set_flags_byte,
}
use retronet.Cpu.State.Psw.{set_flags_byte-flags_byte}
use retronet.Cpu.State.Valid.{IsValid, hl-lt, bc-lt, de-lt, flags_byte-lt}
use retronet.Cpu.Core.{◌>>=◌, modify, mem_read, mem_write}
use retronet.Cpu.Execute.{
  push_byte, push_word, pop_byte, pop_word, call, push, pop, exchange_stack_hl,
}
use retronet.Cpu.Frame.Fetch.{on_bus}

-- The word that PUSH saves of a pair; the pair of code 3 is the PSW.
abbrev pub saved : ℕ → Cpu8080 → ℕ
saved pair c =
    if pair == pair_bc
    then bc c
    else if pair == pair_de
    then de c
    else if pair == pair_hl
    then hl c
    else word c.a (flags_byte c)

module _ {k : Option AluBackend} (c : Cpu8080) (v : IsValid k c) where
  saved-lt : (pair : ℕ) → saved pair c < 65536
  saved-lt pair = ground (
    arith,
    bc-lt c v,
    de-lt c v,
    hl-lt c v,
    word-lt c.a (flags_byte c) v.a-lt (flags_byte-lt c v),
  )

  set_bc-bc : set_bc (bc c) c ≡ c
  unfolding set_bc bc
  set_bc-bc = rw (word-high c.b c.c v.b-lt v.c-lt, word-low c.b c.c v.b-lt v.c-lt) refl

  set_de-de : set_de (de c) c ≡ c
  unfolding set_de de
  set_de-de = rw (word-high c.d c.e v.d-lt v.e-lt, word-low c.d c.e v.d-lt v.e-lt) refl

  set_hl-hl : set_hl (hl c) c ≡ c
  unfolding set_hl hl
  set_hl-hl = rw (word-high c.h c.l v.h-lt v.l-lt, word-low c.h c.l v.h-lt v.l-lt) refl

  set_psw-psw :
      let w = word c.a (flags_byte c) in set_flags_byte (u8 w) (record c { a = u8 (shr w 8) }) ≡ c
  set_psw-psw =
      let low = flags_byte-lt c v in
      rw (word-high c.a (flags_byte c) v.a-lt low, word-low c.a (flags_byte c) v.a-lt low)
        (set_flags_byte-flags_byte c c)

below_twice : (sp : ℕ) → sp < 65536 → add16 (add16 (dec16 (dec16 sp)) 1) 1 ≡ sp
below_twice sp h = omega arith

below_once : (sp : ℕ) → sp < 65536 → add16 (dec16 (dec16 sp)) 1 ≡ dec16 sp
below_once sp h = omega arith

module _ {M : Type 0} ⦃memory : Memory M⦄ where
  -- The memory behind a push of the word `w` with the stack pointer `sp`.
  abbrev pub stacked : M → ℕ → ℕ → M
  stacked m sp w = memory.write (memory.write m (dec16 sp) (u8 (shr w 8))) (dec16 (dec16 sp)) (u8 w)

  module _ (ram : RamLaws memory) where
    stacked_high :
        (m : M) (sp w : ℕ) → sp < 65536 → memory.read (stacked m sp w) (dec16 sp) ≡ u8 (shr w 8)
    stacked_high m sp w h =
        ram.read-write-other _ (dec16 (dec16 sp)) (u8 w) (dec16 sp) (λ e. omega arith)
        ∙ ram.read-write-same m (dec16 sp) _

    word-stacked :
        (m : M) (sp w : ℕ)
        → sp < 65536
        → w < 65536
        → word
            (memory.read (stacked m sp w) (add16 (dec16 (dec16 sp)) 1))
            (memory.read (stacked m sp w) (dec16 (dec16 sp)))
          ≡ w
    word-stacked m sp w h k =
        rw
          (
            below_once sp h,
            stacked_high m sp w h,
            ram.read-write-same (memory.write m (dec16 sp) (u8 (shr w 8))) (dec16 (dec16 sp))
                (u8 w),
          )
          (word_bytes w k)

  -- The memory behind an exchange that stores the two bytes of a word at `sp`.
  abbrev pub swapped : M → ℕ → ℕ → ℕ → M
  swapped m sp low high = memory.write (memory.write m sp low) (add16 sp 1) high

  module _ (ram : RamLaws memory) where
    read-write :
        (m : M) (addr value other : ℕ)
        → memory.read (memory.write m addr value) other
          ≡ (if other == addr then value else memory.read m other)
    read-write m addr value other = elim (Bool-cases (other == addr)) [
      | inl e ↦ rw (e, (==_iff other addr).0 e) (ram.read-write-same m addr value)
      | inr e ↦ rw e (ram.read-write-other m addr value other (λ h. ground arith))
    ]

    swapped_reads :
        (m : M) (sp low high : ℕ)
        → sp < 65536
        → (memory.read (swapped m sp low high) sp ≡ low)
          × (memory.read (swapped m sp low high) (add16 sp 1) ≡ high)
    swapped_reads m sp low high h = (
      ram.read-write-other _ (add16 sp 1) high sp (λ e. omega arith) ∙ ram.read-write-same m sp low,
      ram.read-write-same _ (add16 sp 1) high,
    )

    swapped_back :
        (m : M) (sp low high : ℕ)
        → sp < 65536
        → (addr : ℕ)
        → memory.read
            (swapped (swapped m sp low high) sp (memory.read m sp) (memory.read m (add16 sp 1)))
            addr
          ≡ memory.read m addr
    swapped_back m sp low high h addr =
        let first = memory.write m sp low in
        let second = memory.write first (add16 sp 1) high in
        let third = memory.write second sp (memory.read m sp) in
        ground (
          arith,
          read-write third (add16 sp 1) (memory.read m (add16 sp 1)) addr,
          read-write second sp (memory.read m sp) addr,
          read-write first (add16 sp 1) high addr,
          read-write m sp low addr,
        )

module _ {M P : Type 0} ⦃memory : Memory M⦄ where
  push_word_lem :
      (w : ℕ) (c : Cpu8080) (m : M) (io : Option P)
      → push_word w (on_bus c m io)
        ≡ (ok tt, on_bus (record c { sp = dec16 (dec16 c.sp) }) (stacked m c.sp w) io)
  unfolding push_word push_byte mem_write
  push_word_lem w c m io = refl

  pop_word_lem :
      (c : Cpu8080) (m : M) (io : Option P)
      → pop_word (on_bus c m io) ≡ (
        ok (word (memory.read m (add16 c.sp 1)) (memory.read m c.sp)),
        on_bus (record c { sp = add16 (add16 c.sp 1) 1 }) m io,
      )
  unfolding pop_word pop_byte mem_read
  pop_word_lem c m io = refl

  module _ (ram : RamLaws memory) where
    pop_word-push_word :
        (w : ℕ) (c : Cpu8080) (m : M) (io : Option P)
        → c.sp < 65536
        → w < 65536
        → pop_word (push_word w (on_bus c m io)).1 ≡ (ok w, on_bus c (stacked m c.sp w) io)
    pop_word-push_word w c m io h k =
        rw (push_word_lem w c m io)
          (pop_word_lem _ _ _ ∙ rw (word-stacked ram m c.sp w h k, below_twice c.sp h) refl)

    -- The pop of RET behind CALL, on a RAM and with PC and SP in range, gives the PC before the call; SP
    -- and the registers are as before, and PC is the target of the call.
    call_return :
        (target : ℕ) (c : Cpu8080) (m : M) (io : Option P)
        → c.sp < 65536
        → c.pc < 65536
        → pop_word (call target (on_bus c m io)).1
          ≡ (ok c.pc, on_bus (set_pc target c) (stacked m c.sp c.pc) io)
    unfolding call push_word push_byte mem_write pop_word pop_byte mem_read set_pc
    call_return target c m io h k =
        ap₂ (λ w sp. (ok w, on_bus (record c { pc = target; sp = sp }) (stacked m c.sp c.pc) io))
          (word-stacked ram m c.sp c.pc h k) (below_twice c.sp h)

    push_case :
        (w : ℕ) (c : Cpu8080) (m : M) (io : Option P)
        → c.sp < 65536
        → w < 65536
        → (f : ℕ → Cpu8080 → Cpu8080) → f w c ≡ c
        → (pop_word >>= λ x. modify (f x)) (push_word w (on_bus c m io)).1
          ≡ (ok tt, on_bus c (stacked m c.sp w) io)
    push_case w c m io h k f e = rw (pop_word-push_word w c m io h k) (rw e refl)

    -- POP behind PUSH of the same pair, or of the PSW, on a RAM and from a processor whose registers fit,
    -- is no change of the processor: registers, flags and stack pointer are back, and the saved word
    -- stays in the memory below the stack pointer.
    pub pop-push :
        {k : Option AluBackend} (pair : ℕ) (c : Cpu8080) (m : M) (io : Option P)
        → IsValid k c
        → pop pair (push pair (on_bus c m io)).1
          ≡ (ok tt, on_bus c (stacked m c.sp (saved pair c)) io)
    unfolding pop push
    pop-push pair c m io v = elim (Bool-cases (pair == pair_bc)) [
      | inl e ↦ rw e (push_case (bc c) c m io v.sp-lt (bc-lt c v) set_bc (set_bc-bc c v))
      | inr e ↦ elim (Bool-cases (pair == pair_de)) [
        | inl f ↦ rw (e, f) (push_case (de c) c m io v.sp-lt (de-lt c v) set_de (set_de-de c v))
        | inr f ↦ elim (Bool-cases (pair == pair_hl)) [
          | inl g ↦
              rw (e, f, g) (push_case (hl c) c m io v.sp-lt (hl-lt c v) set_hl (set_hl-hl c v))
          | inr g ↦
              rw (e, f, g)
                (push_case (word c.a (flags_byte c)) c m io v.sp-lt
                  (word-lt c.a (flags_byte c) v.a-lt (flags_byte-lt c v))
                  (λ w s. set_flags_byte (u8 w) (record s { a = u8 (shr w 8) })) (set_psw-psw c v))
        ]
      ]
    ]

    -- XTHL twice, on a RAM and with SP in range, is no change of the processor, and every address of the
    -- memory reads as before.
    exchange_stack_hl_twice :
        (c : Cpu8080) (m : M) (io : Option P)
        → c.sp < 65536
        → exchange_stack_hl (exchange_stack_hl (on_bus c m io)).1 ≡ (
          ok tt,
          on_bus c
              (swapped
                (swapped m c.sp c.l c.h)
                c.sp
                (memory.read m c.sp)
                (memory.read m (add16 c.sp 1)))
              io,
        )
          × ((addr : ℕ)
              → memory.read
                  (swapped
                    (swapped m c.sp c.l c.h)
                    c.sp
                    (memory.read m c.sp)
                    (memory.read m (add16 c.sp 1)))
                  addr
                ≡ memory.read m addr)
    unfolding exchange_stack_hl mem_read mem_write
    exchange_stack_hl_twice c m io h =
        let (low, high) = swapped_reads ram m c.sp c.l c.h h in
        (
          ap₂
              (λ x y. (
                ok tt,
                on_bus (record c { l = x; h = y })
                    (swapped (swapped m c.sp c.l c.h) c.sp (memory.read m c.sp)
                      (memory.read m (add16 c.sp 1)))
                    io,
              ))
              low high,
          swapped_back ram m c.sp c.l c.h h,
        )
