-- ===== src/Machine/Errors.antt =====
-- The errors that machine/memory.go and machine/profile.go build, and results that carry them.
use retronet.Base.{ℕ}
use Prim.Native.String.{String}

-- type MemoryKind, a string: the three constants, and any other text
pub data MemoryKind : Type 0 where
  ram rom mixed : MemoryKind
  other : String → MemoryKind

-- One constructor for each message, with what it shows.
pub data MemoryError : Type 0 where
  region_outside : String → MemoryError
  region_reversed : String → ℕ → ℕ → MemoryError
  region_kind : String → MemoryKind → MemoryError
  region_overlap : String → ℕ → MemoryError
  size_exceeds : ℕ → MemoryError
  range_exceeds : ℕ → ℕ → MemoryError
  unmapped_memory read_only_memory : ℕ → MemoryError

pub data Fallible (A : Type 0) : Type 0 where
  done : A → Fallible A
  failed : MemoryError → Fallible A

infixl 5 ◌>>=◌
abbrev pub ◌>>=◌ : {A B : Type 0} → Fallible A → (A → Fallible B) → Fallible B
done a >>= f = f a
failed e >>= f = failed e
