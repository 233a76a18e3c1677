-- ===== src/Machine/Memory.antt =====
-- machine/memory.go: the bus with a map of RAM and ROM, and `ValidateRange` of machine/profile.go.
pub mod Access
pub mod Map
pub mod Load
pub mod Rom
use retronet.Base.{
  ℕ, zero, suc, ◌+◌, ◌-◌, bit_and, Bool, true, false, not, ◌||◌, if◌then◌else◌, ◌==◌, ltb, List, [],
  ◌∷◌, length,
}
use Prim.Native.String.{String}
use retronet.Cpu.Types.{address_mask}
use retronet.Cpu.Bus.{Memory, update}
use retronet.Machine.Errors.{MemoryKind, MemoryError, Fallible, done, failed, ◌>>=◌}

-- type MemoryRegion of machine/profile.go
pub record MemoryRegion : Type 0 where
  pub name : String
  pub start : ℕ
  pub end : ℕ
  pub kind : MemoryKind
  pub description : String

-- type MemoryBus, its arrays as functions of the index
pub record MemoryBus : Type 0 where
  pub data_bytes : ℕ → ℕ
  pub kinds : ℕ → MemoryKind
  pub mapped : ℕ → Bool

-- const AddressSpaceSize
abbrev pub address_space_size : ℕ
address_space_size = 0x10000

abbrev pub is_rom : MemoryKind → Bool
is_rom MemoryKind.rom = true
is_rom _ = false

-- `&MemoryBus{}`
abbrev pub empty_bus : MemoryBus
empty_bus = record { data_bytes = λ _. 0; kinds = λ _. MemoryKind.other ""; mapped = λ _. false }

unfoldable pub validate_memory_region : MemoryRegion → Fallible (Unit {0})
validate_memory_region region =
    if ltb address_mask region.start || ltb address_mask region.end
    then failed (MemoryError.region_outside region.name)
    else if ltb region.end region.start
    then failed (MemoryError.region_reversed region.name region.start region.end)
    else elim region.kind [
      | MemoryKind.ram ↦ done tt
      | MemoryKind.rom ↦ done tt
      | MemoryKind.mixed ↦ done tt
      | MemoryKind.other text ↦ failed (MemoryError.region_kind region.name (MemoryKind.other text))
    ]

abbrev pub map_cell : MemoryKind → ℕ → MemoryBus → MemoryBus
map_cell kind addr bus = record bus {
  mapped = update bus.mapped addr true;
  kinds = update bus.kinds addr kind;
}

-- the loop over the addresses of a region, with the rounds left
unfoldable pub map_cells : MemoryRegion → ℕ → ℕ → MemoryBus → Fallible MemoryBus
map_cells region zero addr bus = done bus
map_cells region (suc left) addr bus =
    let rest = map_cells region left (addr + 1) (map_cell region.kind addr bus) in
    if bus.mapped addr then failed (MemoryError.region_overlap region.name addr) else rest

unfoldable pub map_regions : List MemoryRegion → MemoryBus → Fallible MemoryBus
unfolding map_cells validate_memory_region
map_regions [] bus = done bus
map_regions (region ∷ regions) bus = validate_memory_region region >>= λ _.
    map_cells region (region.end + 1 - region.start) region.start bus >>= λ next.
    map_regions regions next

unfoldable pub new_memory_bus : List MemoryRegion → Fallible MemoryBus
unfolding map_regions
new_memory_bus regions = map_regions regions empty_bus

unfoldable pub bus_read : MemoryBus → ℕ → ℕ
bus_read m addr =
    let index = bit_and addr address_mask in
    if not (m.mapped index) then 0xFF else m.data_bytes index

unfoldable pub bus_write : MemoryBus → ℕ → ℕ → MemoryBus
bus_write m addr value =
    let index = bit_and addr address_mask in
    if not (m.mapped index) || is_rom (m.kinds index)
    then m
    else record m { data_bytes = update m.data_bytes index value }

abbrev pub memory_bus : Memory MemoryBus
memory_bus = record { read = bus_read; write = bus_write }

unfoldable pub kind_at : MemoryBus → ℕ → MemoryKind × Bool
kind_at m addr = let index = bit_and addr address_mask in (m.kinds index, m.mapped index)

-- `ValidateRange`; the size is a length here, so it is not negative
unfoldable pub validate_range : ℕ → ℕ → Fallible (Unit {0})
validate_range addr size =
    if ltb address_space_size size
    then failed (MemoryError.size_exceeds size)
    else if ltb address_space_size (addr + size)
    then failed (MemoryError.range_exceeds addr size)
    else done tt

-- the tests of `LoadBytes` before the copy, from `index` on
unfoldable pub check_writable : MemoryBus → ℕ → List ℕ → Fallible (Unit {0})
check_writable m index [] = done tt
check_writable m index (value ∷ rest) =
    let others = check_writable m (index + 1) rest in
    if not (m.mapped index)
    then failed (MemoryError.unmapped_memory index)
    else if is_rom (m.kinds index)
    then failed (MemoryError.read_only_memory index)
    else others

unfoldable pub check_mapped : MemoryBus → ℕ → List ℕ → Fallible (Unit {0})
check_mapped m index [] = done tt
check_mapped m index (value ∷ rest) =
    let others = check_mapped m (index + 1) rest in
    if not (m.mapped index) then failed (MemoryError.unmapped_memory index) else others

-- `copy(m.data[index:], data)`
unfoldable pub copy_data : MemoryBus → ℕ → List ℕ → MemoryBus
copy_data m index [] = m
copy_data m index (value ∷ rest) =
    copy_data (record m { data_bytes = update m.data_bytes index value }) (index + 1) rest

unfoldable pub burn : MemoryBus → ℕ → List ℕ → MemoryBus
burn m index [] = m
burn m index (value ∷ rest) =
    burn
      (record m {
        data_bytes = update m.data_bytes index value;
        kinds = update m.kinds index MemoryKind.rom;
      })
      (index + 1) rest

-- MemoryBus.LoadBytes and MemoryBus.LoadROM
unfoldable pub load_bytes : MemoryBus → ℕ → List ℕ → Fallible MemoryBus
unfolding validate_range check_writable copy_data
load_bytes m addr data_list = validate_range addr (length data_list) >>= λ _.
    check_writable m addr data_list >>= λ _. done (copy_data m addr data_list)

unfoldable pub load_rom : MemoryBus → ℕ → List ℕ → Fallible MemoryBus
unfolding validate_range check_mapped burn
load_rom m addr data_list = validate_range addr (length data_list) >>= λ _.
    check_mapped m addr data_list >>= λ _. done (burn m addr data_list)
