-- ===== src/Machine/Profiles/Table.antt =====
-- The profiles of machine/profile.go: each has a memory, into which the ROMs of its slots can be loaded.
use Prim.Native.String.{String}
use text.Mathlib.Text.{◌==◌ as str_eq}
use text.Mathlib.TextEquality.{eq_iff}
use retronet.Base.{
  ℕ, ◌+◌, ◌<◌, ◌≤◌, ◌≡◌, refl, arith, true, false, List, [], ◌∷◌, length, Option, none, some,
  Bool-cases, inl, inr, ap, subst, ◌∙◌,
}
use retronet.Machine.Errors.{MemoryKind, done}
use retronet.Machine.Memory.{MemoryBus, is_rom, new_memory_bus, memory_bus, load_rom}
use retronet.Machine.Memory.Map.{known, new_memory_bus_lem, new_memory_bus-done}
use retronet.Machine.Memory.Load.{IsLoaded, IsBurnt, load_rom-IsLoaded}
use retronet.Machine.Peripherals.Check.{All}
use retronet.Machine.Peripherals.Attach.{or_else}
use retronet.Machine.Profiles.{
  generic, altair_8800, imsai_8080, cpm_dev, monitor_and_test_slots, Profile, RomSlot,
  flat_memory_region, profiles, find_profile, lookup_profile, find_slot, rom_slot, new_memory,
}
use retronet.Machine.Profiles.Loads.{load_slot, bus_loaders}

-- One region over all addresses, which is no ROM, and slots at address 0 as large as the memory.
pub record IsFlat (p : Profile) : Type 0 where
  pub region : String
  pub description : String
  pub kind : MemoryKind
  pub regions : p.memory_regions ≡ flat_memory_region region kind description
  pub known_kind : known kind ≡ true
  pub no_rom : is_rom kind ≡ false
  pub slots : All (λ s. (s.address ≡ 0) × (s.max_size ≡ 65536)) p.rom_slots

-- The slots of the three profiles that have some.
slots_lem : All (λ s. (s.address ≡ 0) × (s.max_size ≡ 65536)) monitor_and_test_slots
slots_lem = ((refl, refl), ((refl, refl), tt))

flat_memory_region-IsFlat :
    (p : Profile) (region description : String) (kind : MemoryKind)
    → p.memory_regions ≡ flat_memory_region region kind description
    → known kind ≡ true
    → is_rom kind ≡ false
    → All (λ s. (s.address ≡ 0) × (s.max_size ≡ 65536)) p.rom_slots
    → IsFlat p
flat_memory_region-IsFlat p region description kind e k r s = record {
  region = region;
  description = description;
  kind = kind;
  regions = e;
  known_kind = k;
  no_rom = r;
  slots = s;
}

profiles-IsFlat : All IsFlat profiles
profiles-IsFlat = (
  flat_memory_region-IsFlat generic _ _ MemoryKind.ram refl refl refl tt,
  (
    flat_memory_region-IsFlat altair_8800 _ _ MemoryKind.mixed refl refl refl slots_lem,
    (
      flat_memory_region-IsFlat imsai_8080 _ _ MemoryKind.mixed refl refl refl slots_lem,
      (flat_memory_region-IsFlat cpm_dev _ _ MemoryKind.mixed refl refl refl slots_lem, tt),
    ),
  ),
)

find_profile-IsFlat :
    (name : String) (ps : List Profile) (p : Profile)
    → All IsFlat ps
    → find_profile name ps ≡ some p
    → (p.name ≡ name) × IsFlat p
unfolding find_profile
find_profile-IsFlat name [] p flat h = absurd (cc h)
find_profile-IsFlat name (q ∷ qs) p flat h = elim (Bool-cases (str_eq q.name name)) [
  | inl e ↦
      (let same : q ≡ p = some_inj q p (rw e at h) in
        subst (λ r. (r.name ≡ name) × IsFlat r) same ((eq_iff q.name name).0 e, flat.0))
  | inr e ↦ find_profile-IsFlat name qs p flat.1 (rw e at h)
]
  where
    some_inj : (a b : Profile) → ◌≡◌ {A = Option Profile} (some a) (some b) → a ≡ b
    some_inj a b e = ap (λ (o : Option Profile). or_else o a) e

-- A memory of one flat region that is no ROM.
pub record IsOpen (m : MemoryBus) : Type 0 where
  pub all_mapped : (addr : ℕ) → addr < 65536 → m.mapped addr ≡ true
  pub no_rom : (addr : ℕ) → addr < 65536 → is_rom (m.kinds addr) ≡ false

flat_memory :
    (region description : String) (kind : MemoryKind)
    → known kind ≡ true
    → is_rom kind ≡ false
    → (m : MemoryBus) × (new_memory_bus (flat_memory_region region kind description) ≡ done m)
      × IsOpen m
flat_memory region description kind k r =
    let regions = flat_memory_region region kind description in
    let (m, e) = new_memory_bus-done regions (rw k refl) (λ addr. ground arith) in
    let lem = (new_memory_bus_lem regions m e).1 in
    (
      m,
      e,
      record {
        all_mapped = λ addr h. ground (arith, lem addr);
        no_rom = λ addr h. ground (arith, lem addr);
      },
    )

-- The memory of a profile that `Lookup` finds is built without an error, is mapped at every address,
-- and has no ROM; and the profile has the name that was asked for.
pub lookup_profile-new_memory :
    (name : String) (p : Profile)
    → lookup_profile name ≡ some p
    → (p.name ≡ name) × ((m : MemoryBus) × (new_memory p ≡ done m) × IsOpen m)
unfolding lookup_profile new_memory
lookup_profile-new_memory name p h =
    let (same, flat) = find_profile-IsFlat name profiles p profiles-IsFlat h in
    let (m, e, open_m) =
      flat_memory flat.region flat.description flat.kind flat.known_kind flat.no_rom in
    (same, (m, ap new_memory_bus flat.regions ∙ e, open_m))

find_slot-All :
    (P : RomSlot → Type 0) (name : String) (slots : List RomSlot) (slot : RomSlot)
    → All P slots
    → find_slot name slots ≡ some slot
    → P slot
unfolding find_slot
find_slot-All P name [] slot all h = absurd (cc h)
find_slot-All P name (s ∷ ss) slot all h = elim (Bool-cases (str_eq s.name name)) [
  | inl e ↦ subst P (ap (λ (o : Option RomSlot). or_else o s) (rw e at h)) all.0
  | inr e ↦ find_slot-All P name ss slot all.1 (rw e at h)
]

load_slot_by :
    (p : Profile) (name : String) (slot : RomSlot) (xs : List ℕ) (m n : MemoryBus)
    → rom_slot p name ≡ some slot
    → length xs ≤ slot.max_size
    → load_rom m slot.address xs ≡ done n
    → load_slot ⦃memory = memory_bus⦄ ⦃loaders = bus_loaders⦄ p name xs (some m) ≡ (none, some n)
unfolding load_slot
load_slot_by p name slot xs m n e h l = ground arith

-- A ROM of at most 65536 bytes can be loaded into any slot of a profile that `Lookup` finds, in the
-- memory of the profile: the load succeeds, the memory then holds the bytes at the address of the slot,
-- where it takes no more writes, and is unchanged elsewhere, in its bytes and their kinds, and in its map.
pub load_slot-IsLoaded :
    (name slot_name : String) (p : Profile) (slot : RomSlot) (xs : List ℕ)
    → lookup_profile name ≡ some p
    → rom_slot p slot_name ≡ some slot
    → length xs ≤ 65536
    → (m : MemoryBus) × (n : MemoryBus) × (new_memory p ≡ done m)
      × (load_slot ⦃memory = memory_bus⦄ ⦃loaders = bus_loaders⦄ p slot_name xs (some m)
          ≡ (none, some n))
      × IsLoaded m n slot.address xs
      × IsBurnt m n slot.address xs
unfolding rom_slot lookup_profile
load_slot-IsLoaded name slot_name p slot xs found at_slot h =
    let flat = (find_profile-IsFlat name profiles p profiles-IsFlat found).1 in
    let place =
      find_slot-All (λ s. (s.address ≡ 0) × (s.max_size ≡ 65536)) slot_name p.rom_slots slot
        flat.slots at_slot in
    let (m, built, open_m) = (lookup_profile-new_memory name p found).1 in
    let (n, e, is_loaded, burnt) =
      load_rom-IsLoaded m slot.address xs (omega arith)
        (λ k b. open_m.all_mapped (slot.address + k) (omega arith)) in
    (m, n, built, load_slot_by p slot_name slot xs m n at_slot (omega arith) e, is_loaded, burnt)
