-- ===== src/Cpu/Frame/Access.antt =====
-- The accesses to registers and to the stack.
use retronet.Base.{ℕ, ◌≡◌, arith, true, bit_and, ◌==◌, u8, shr, add16, dec16, word}
use retronet.Cpu.Errors.{Error}
use retronet.Cpu.Bus.{Memory}
use retronet.Cpu.State.{hl, bc, de, flags_byte, set_flags_byte, set_bc, set_de, set_hl}
use retronet.Cpu.Core.{System}
use retronet.Cpu.Execute.{
  read_register, write_register, execute_mov, push_byte, push_word, pop_byte, pop_word, call, push,
  pop, exchange_stack_hl, store_hl, load_hl,
}
use retronet.Cpu.Frame.{
  IsFrame, AllowsWrite, AllowsJump, Relates, bind-Relates, then-Relates, pure-Relates, get-Relates,
  modify-Relates, jump-Relates, if-Relates, split-Relates, need_memory-Relates, mem_read-Relates,
  mem_write-Relates,
}

module _ {M P : Type 0} ⦃memory : Memory M⦄ {R : System M P → System M P → Type 0}
    (frame : IsFrame R) {E : Error → Type 0} where
  pub read_register-Relates : (r : ℕ) → Relates R E (read_register r)
  unfolding read_register
  read_register-Relates r = if-Relates frame _ (get-Relates frame (λ s. s.b)) (
      if-Relates frame _ (get-Relates frame (λ s. s.c)) (
        if-Relates frame _ (get-Relates frame (λ s. s.d)) (
          if-Relates frame _ (get-Relates frame (λ s. s.e)) (
            if-Relates frame _ (get-Relates frame (λ s. s.h)) (
              if-Relates frame _ (get-Relates frame (λ s. s.l)) (
                if-Relates frame _
                  (then-Relates frame (need_memory-Relates frame)
                    (bind-Relates frame (get-Relates frame hl) (mem_read-Relates frame)))
                  (get-Relates frame (λ s. s.a))))))))

  pub write_register-Relates :
      (r value : ℕ)
      → ((bit_and r 0x07 == 6) ≡ true → AllowsWrite R)
      → Relates R E (write_register r value)
  unfolding write_register
  write_register-Relates r value allows =
      if-Relates frame _ (modify-Relates frame (λ s. record s { b = value }) (λ c. ground arith)) (
        if-Relates frame _ (modify-Relates frame (λ s. record s { c = value }) (λ c. ground arith))
          (if-Relates frame _
            (modify-Relates frame (λ s. record s { d = value }) (λ c. ground arith))
            (if-Relates frame _
              (modify-Relates frame (λ s. record s { e = value }) (λ c. ground arith))
              (if-Relates frame _
                (modify-Relates frame (λ s. record s { h = value }) (λ c. ground arith))
                (if-Relates frame _
                  (modify-Relates frame (λ s. record s { l = value }) (λ c. ground arith))
                  (split-Relates frame _
                    (λ h. then-Relates frame (need_memory-Relates frame) (
                      bind-Relates frame (get-Relates frame hl)
                        (λ addr. mem_write-Relates frame (allows h) addr value)))
                    (λ h.
                      modify-Relates frame (λ s. record s { a = value }) (λ c. ground arith))))))))

  pub execute_mov-Relates :
      (code : ℕ)
      → ((bit_and (bit_and (shr code 3) 0x07) 0x07 == 6) ≡ true → AllowsWrite R)
      → Relates R E (execute_mov code)
  unfolding execute_mov
  execute_mov-Relates code allows =
      bind-Relates frame (read_register-Relates (bit_and code 0x07))
        (λ value. write_register-Relates (bit_and (shr code 3) 0x07) value allows)

  pop_byte-Relates : Relates R E pop_byte
  unfolding pop_byte
  pop_byte-Relates = bind-Relates frame (get-Relates frame (λ s. s.sp)) λ addr.
      bind-Relates frame (mem_read-Relates frame addr) λ value.
        then-Relates frame
          (modify-Relates frame (λ s. record s { sp = add16 s.sp 1 }) (λ c. ground arith))
          (pure-Relates frame value)

  pub pop_word-Relates : Relates R E pop_word
  unfolding pop_word
  pop_word-Relates =
      bind-Relates frame pop_byte-Relates
        λ low. bind-Relates frame pop_byte-Relates λ high. pure-Relates frame (word high low)

  pub pop-Relates : (pair : ℕ) → Relates R E (pop pair)
  unfolding pop
  pop-Relates pair = bind-Relates frame pop_word-Relates λ value.
      if-Relates frame _ (modify-Relates frame (set_bc value) (λ c. unfold set_bc in ground arith))
        (if-Relates frame _
          (modify-Relates frame (set_de value) (λ c. unfold set_de in ground arith))
          (if-Relates frame _
            (modify-Relates frame (set_hl value) (λ c. unfold set_hl in ground arith))
            (modify-Relates frame
              (λ s. set_flags_byte (u8 value) (record s { a = u8 (shr value 8) }))
              (λ c. unfold set_flags_byte in ground arith))))

  pub load_hl-Relates : (addr : ℕ) → Relates R E (load_hl addr)
  unfolding load_hl
  load_hl-Relates addr = bind-Relates frame (mem_read-Relates frame addr) λ low.
      then-Relates frame (modify-Relates frame (λ s. record s { l = low }) (λ c. ground arith)) (
        bind-Relates frame (mem_read-Relates frame (add16 addr 1))
          (λ high. modify-Relates frame (λ s. record s { h = high }) (λ c. ground arith)))

  module _ (allows : AllowsWrite R) where
    push_byte-Relates : (value : ℕ) → Relates R E (push_byte value)
    unfolding push_byte
    push_byte-Relates value =
        then-Relates frame
          (modify-Relates frame (λ s. record s { sp = dec16 s.sp }) (λ c. ground arith))
          (bind-Relates frame (get-Relates frame (λ s. s.sp))
            (λ addr. mem_write-Relates frame allows addr value))

    pub push_word-Relates : (value : ℕ) → Relates R E (push_word value)
    unfolding push_word
    push_word-Relates value =
        then-Relates frame (push_byte-Relates (u8 (shr value 8))) (push_byte-Relates (u8 value))

    pub call-Relates : AllowsJump R → (target : ℕ) → Relates R E (call target)
    unfolding call
    call-Relates jumps target =
        bind-Relates frame (get-Relates frame (λ s. s.pc))
          (λ pc. then-Relates frame (push_word-Relates pc) (jump-Relates frame jumps target))

    pub push-Relates : (pair : ℕ) → Relates R E (push pair)
    unfolding push
    push-Relates pair =
        if-Relates frame _ (bind-Relates frame (get-Relates frame bc) push_word-Relates) (
          if-Relates frame _ (bind-Relates frame (get-Relates frame de) push_word-Relates) (
            if-Relates frame _ (bind-Relates frame (get-Relates frame hl) push_word-Relates) (
              bind-Relates frame (get-Relates frame (λ s. s.a)) (λ a.
                bind-Relates frame (get-Relates frame flags_byte)
                  (λ flags. push_word-Relates (word a flags))))))

    pub store_hl-Relates : (addr : ℕ) → Relates R E (store_hl addr)
    unfolding store_hl
    store_hl-Relates addr = bind-Relates frame (get-Relates frame (λ s. s.l)) λ l.
        then-Relates frame (mem_write-Relates frame allows addr l) (
          bind-Relates frame (get-Relates frame (λ s. s.h))
            (λ h. mem_write-Relates frame allows (add16 addr 1) h))

    pub exchange_stack_hl-Relates : Relates R E exchange_stack_hl
    unfolding exchange_stack_hl
    exchange_stack_hl-Relates = bind-Relates frame (get-Relates frame (λ s. s.sp)) λ sp.
        bind-Relates frame (mem_read-Relates frame sp) λ low.
          bind-Relates frame (mem_read-Relates frame (add16 sp 1)) λ high.
            bind-Relates frame (get-Relates frame (λ s. s.l)) λ l.
              then-Relates frame (mem_write-Relates frame allows sp l) (
                bind-Relates frame (get-Relates frame (λ s. s.h)) λ h.
                  then-Relates frame (mem_write-Relates frame allows (add16 sp 1) h) (
                    modify-Relates frame (λ s. record s { l = low; h = high }) (λ c. ground arith)))
