-- ===== src/Cpu/State/Valid.antt =====
-- The range of every field, and the operations on the processor alone that keep it.
use retronet.Base.{ℕ, ◌^◌, ◌<◌, ◌≡◌, arith, Bool, Option, word-lt}
use retronet.Cpu.Alu.{AluBackend}
use retronet.Cpu.State.{Cpu8080, hl, bc, de, pair_value, set_pair, flags_byte}

-- The backend returns bytes for bytes and words for words.
pub record IsSound (b : AluBackend) : Type 0 where
  pub alu-lt : (g a v : ℕ) (cy : Bool) → a < 256 → v < 256 → (b.alu g a v cy).0 < 256
  pub increment-lt : (v : ℕ) → v < 256 → (b.increment v).0 < 256
  pub decrement-lt : (v : ℕ) → v < 256 → (b.decrement v).0 < 256
  pub add16-lt : (x y : ℕ) → x < 65536 → y < 65536 → (b.add16 x y).0 < 65536

-- Every register is a byte, PC and SP are words, the counters fit their uint64, and the backend is
-- the one that was set, `k`.
pub record IsValid (k : Option AluBackend) (s : Cpu8080) : Type 0 where
  pub a-lt : s.a < 256
  pub b-lt : s.b < 256
  pub c-lt : s.c < 256
  pub d-lt : s.d < 256
  pub e-lt : s.e < 256
  pub h-lt : s.h < 256
  pub l-lt : s.l < 256
  pub pc-lt : s.pc < 65536
  pub sp-lt : s.sp < 65536
  pub instructions-lt : s.instruction_count < 2 ^ 64
  pub states-lt : s.state_count < 2 ^ 64
  pub waits-lt : s.wait_state_count < 2 ^ 64
  pub pending-lt : s.pending_wait_states < 2 ^ 64
  pub same_alu : s.alu ≡ k

module _ {k : Option AluBackend} (s : Cpu8080) (v : IsValid k s) where
  pub hl-lt : hl s < 65536
  unfolding hl
  hl-lt = word-lt s.h s.l v.h-lt v.l-lt

  pub bc-lt : bc s < 65536
  unfolding bc
  bc-lt = word-lt s.b s.c v.b-lt v.c-lt

  pub de-lt : de s < 65536
  unfolding de
  de-lt = word-lt s.d s.e v.d-lt v.e-lt

  pub pair_value-lt : (pair : ℕ) → pair_value pair s < 65536
  unfolding pair_value
  pair_value-lt pair = ground (
    arith,
    word-lt s.h s.l v.h-lt v.l-lt,
    word-lt s.b s.c v.b-lt v.c-lt,
    word-lt s.d s.e v.d-lt v.e-lt,
  )

  pub set_pair-IsValid : (pair w : ℕ) → w < 65536 → IsValid k (set_pair pair w s)
  unfolding set_pair
  set_pair-IsValid pair w h = ground arith

  pub flags_byte-lt : flags_byte s < 256
  unfolding flags_byte
  flags_byte-lt = ground arith
