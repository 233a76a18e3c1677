-- ===== src/Cpu/Safety/Registers.antt =====
-- Safety of the accesses to registers and to the stack.
use retronet.Base.{ℕ, ◌<◌, arith, bit_and, u8, shr, add16, dec16, word, word-lt}
use retronet.Cpu.Bus.{Memory, MemoryLaws}
use retronet.Cpu.State.{
  Cpu8080, hl, bc, de, flags_byte, set_flags_byte, set_bc, set_de, set_hl, set_pc,
}
use retronet.Cpu.State.Valid.{hl-lt}
use retronet.Cpu.Execute.{
  read_register, write_register, execute_mov, push_byte, push_word, pop_byte, pop_word, call, push,
  pop, exchange_stack_hl, store_hl, load_hl,
}
use retronet.Cpu.Core.{Run, ◌>>=◌, get, modify, mem_read}
use retronet.Cpu.Safety.{
  Contract, Yields, Keeps, bind-Yields, then-Yields, pure-Yields, get-Yields, modify-Keeps,
  need_memory-Keeps, mem_read-Yields, mem_write-Keeps, if-Yields,
}

module _ {M P : Type 0} {K : Contract M P} ⦃memory : Memory M⦄
    (laws : MemoryLaws memory K.holds_mem) where
  read_at_hl : Yields K (λ v. v < 256) (get hl >>= mem_read)
  read_at_hl = bind-Yields (get-Yields hl hl-lt) (mem_read-Yields laws)

  pub read_register-Yields : (r : ℕ) → Yields K (λ v. v < 256) (read_register r)
  unfolding read_register
  read_register-Yields r = if-Yields _ (get-Yields _ (λ c v. v.b-lt)) (
      if-Yields _ (get-Yields _ (λ c v. v.c-lt)) (
        if-Yields _ (get-Yields _ (λ c v. v.d-lt)) (
          if-Yields _ (get-Yields _ (λ c v. v.e-lt)) (
            if-Yields _ (get-Yields _ (λ c v. v.h-lt)) (
              if-Yields _ (get-Yields _ (λ c v. v.l-lt)) (
                if-Yields _ (then-Yields need_memory-Keeps read_at_hl)
                  (get-Yields _ (λ c v. v.a-lt))))))))

  pub write_register-Keeps : (r value : ℕ) → value < 256 → Keeps K (write_register r value)
  unfolding write_register
  write_register-Keeps r value h =
      if-Yields _ (modify-Keeps (λ s. record s { b = value }) (λ c v. ground arith)) (
        if-Yields _ (modify-Keeps (λ s. record s { c = value }) (λ c v. ground arith)) (
          if-Yields _ (modify-Keeps (λ s. record s { d = value }) (λ c v. ground arith)) (
            if-Yields _ (modify-Keeps (λ s. record s { e = value }) (λ c v. ground arith)) (
              if-Yields _ (modify-Keeps (λ s. record s { h = value }) (λ c v. ground arith)) (
                if-Yields _ (modify-Keeps (λ s. record s { l = value }) (λ c v. ground arith)) (
                  if-Yields _
                    (then-Yields need_memory-Keeps (
                      bind-Yields (get-Yields hl hl-lt)
                        (λ addr l. mem_write-Keeps laws addr value l h)))
                    (modify-Keeps (λ s. record s { a = value }) (λ c v. ground arith))))))))

  pub execute_mov-Keeps : (code : ℕ) → Keeps K (execute_mov code)
  unfolding execute_mov
  execute_mov-Keeps code =
      bind-Yields (read_register-Yields (bit_and code 0x07))
        (λ value h. write_register-Keeps (bit_and (shr code 3) 0x07) value h)

  push_byte-Keeps : (value : ℕ) → value < 256 → Keeps K (push_byte value)
  unfolding push_byte
  push_byte-Keeps value h =
      then-Yields (modify-Keeps (λ s. record s { sp = dec16 s.sp }) (λ c v. ground arith)) (
        bind-Yields (get-Yields (λ s. s.sp) (λ c v. v.sp-lt))
          (λ addr l. mem_write-Keeps laws addr value l h))

  pub push_word-Keeps : (value : ℕ) → Keeps K (push_word value)
  unfolding push_word
  push_word-Keeps value =
      then-Yields (push_byte-Keeps (u8 (shr value 8)) (omega arith))
        (push_byte-Keeps (u8 value) (omega arith))

  pop_byte-Yields : Yields K (λ v. v < 256) pop_byte
  unfolding pop_byte
  pop_byte-Yields = bind-Yields (get-Yields (λ s. s.sp) (λ c v. v.sp-lt)) (λ addr l.
      bind-Yields (mem_read-Yields laws addr l) (λ value h.
        then-Yields (modify-Keeps (λ s. record s { sp = add16 s.sp 1 }) (λ c v. ground arith))
          (pure-Yields h)))

  pub pop_word-Yields : Yields K (λ v. v < 65536) pop_word
  unfolding pop_word
  pop_word-Yields =
      bind-Yields pop_byte-Yields
        (λ low l. bind-Yields pop_byte-Yields (λ high h. pure-Yields (word-lt high low h l)))

  pub set_pc-Keeps : (addr : ℕ) → addr < 65536 → Keeps K (modify (set_pc addr))
  set_pc-Keeps addr h = modify-Keeps (set_pc addr) (λ c v. unfold set_pc in ground arith)

  pub call-Keeps : (target : ℕ) → target < 65536 → Keeps K (call target)
  unfolding call
  call-Keeps target h =
      bind-Yields (get-Yields (λ s. s.pc) (λ c v. v.pc-lt))
        (λ pc l. then-Yields (push_word-Keeps pc) (set_pc-Keeps target h))

  -- A value that is read without a condition on it.
  get_then :
      (f : Cpu8080 → ℕ) {rest : ℕ → Run M P (Unit {0})}
      → ((x : ℕ) → Keeps K (rest x))
      → Keeps K (get f >>= rest)
  get_then f next = bind-Yields {Q = λ _. Unit {0}} (get-Yields f (λ c v. tt)) (λ x _. next x)

  pub push-Keeps : (pair : ℕ) → Keeps K (push pair)
  unfolding push
  push-Keeps pair = if-Yields _ (get_then bc (λ value. push_word-Keeps value)) (
      if-Yields _ (get_then de (λ value. push_word-Keeps value)) (
        if-Yields _ (get_then hl (λ value. push_word-Keeps value)) (
          get_then (λ s. s.a)
            (λ a. get_then flags_byte (λ flags. push_word-Keeps (word a flags))))))

  pub pop-Keeps : (pair : ℕ) → Keeps K (pop pair)
  unfolding pop
  pop-Keeps pair = bind-Yields pop_word-Yields (λ value h.
      if-Yields _ (modify-Keeps (set_bc value) (λ c v. unfold set_bc in ground arith)) (
        if-Yields _ (modify-Keeps (set_de value) (λ c v. unfold set_de in ground arith)) (
          if-Yields _ (modify-Keeps (set_hl value) (λ c v. unfold set_hl in ground arith)) (
            modify-Keeps (λ s. set_flags_byte (u8 value) (record s { a = u8 (shr value 8) }))
              (λ c v. unfold set_flags_byte in ground arith)))))

  pub store_hl-Keeps : (addr : ℕ) → addr < 65536 → Keeps K (store_hl addr)
  unfolding store_hl
  store_hl-Keeps addr h = bind-Yields (get-Yields (λ s. s.l) (λ c v. v.l-lt)) (λ l p.
      then-Yields (mem_write-Keeps laws addr l h p) (
        bind-Yields (get-Yields (λ s. s.h) (λ c v. v.h-lt))
          (λ h' q. mem_write-Keeps laws (add16 addr 1) h' (omega arith) q)))

  pub load_hl-Keeps : (addr : ℕ) → addr < 65536 → Keeps K (load_hl addr)
  unfolding load_hl
  load_hl-Keeps addr h = bind-Yields (mem_read-Yields laws addr h) (λ low p.
      then-Yields (modify-Keeps (λ s. record s { l = low }) (λ c v. ground arith)) (
        bind-Yields (mem_read-Yields laws (add16 addr 1) (omega arith))
          (λ high q. modify-Keeps (λ s. record s { h = high }) (λ c v. ground arith))))

  pub exchange_stack_hl-Keeps : Keeps K exchange_stack_hl
  unfolding exchange_stack_hl
  exchange_stack_hl-Keeps = bind-Yields (get-Yields (λ s. s.sp) (λ c v. v.sp-lt)) λ sp h.
      bind-Yields (mem_read-Yields laws sp h) λ low p.
        bind-Yields (mem_read-Yields laws (add16 sp 1) (omega arith)) λ high q.
          bind-Yields (get-Yields (λ s. s.l) (λ c v. v.l-lt)) λ l r.
            then-Yields (mem_write-Keeps laws sp l h r) (
              bind-Yields (get-Yields (λ s. s.h) (λ c v. v.h-lt)) λ h' t.
                then-Yields (mem_write-Keeps laws (add16 sp 1) h' (omega arith) t)
                  (modify-Keeps (λ s. record s { l = low; h = high }) (λ c v. ground arith)))
