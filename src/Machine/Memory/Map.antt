-- ===== src/Machine/Memory/Map.antt =====
-- `NewMemoryBus` (machine/memory.go): which lists of regions make a bus, and its map.
use retronet.Base.{
  ℕ, zero, suc, ◌+◌, ◌-◌, ◌≤◌, ◌≡◌, refl, arith, Bool, true, false, ◌&&◌, ◌||◌, if◌then◌else◌, ltb,
  leb, List, [], ◌∷◌, ◌∙◌, ap, subst, Bool-cases, inl, inr,
}
use retronet.Machine.Errors.{MemoryKind, MemoryError, Fallible, done, failed, ◌>>=◌}
use retronet.Machine.Memory.{
  MemoryRegion, MemoryBus, empty_bus, validate_memory_region, map_cell, map_cells, map_regions,
  new_memory_bus,
}

-- The region contains the address.
abbrev pub covers : MemoryRegion → ℕ → Bool
covers region addr = leb region.start addr && leb addr region.end

-- The first region of the list that contains the address gives it its kind.
abbrev pub kind_in : List MemoryRegion → ℕ → MemoryKind → MemoryKind
kind_in [] addr none_kind = none_kind
kind_in (region ∷ regions) addr none_kind =
    if covers region addr then region.kind else kind_in regions addr none_kind

abbrev pub one_if : Bool → ℕ
one_if true = 1
one_if false = 0

-- How many regions contain it.
abbrev pub covering : List MemoryRegion → ℕ → ℕ
covering [] addr = 0
covering (region ∷ regions) addr = one_if (covers region addr) + covering regions addr

-- A region that `validateMemoryRegion` accepts.
abbrev pub known : MemoryKind → Bool
known (MemoryKind.other text) = false
known _ = true

abbrev pub acceptable : MemoryRegion → Bool
acceptable region = leb region.start region.end && ltb region.end 65536 && known region.kind

abbrev pub all_acceptable : List MemoryRegion → Bool
all_acceptable [] = true
all_acceptable (region ∷ regions) = acceptable region && all_acceptable regions

validate_memory_region-acceptable :
    (region : MemoryRegion) → validate_memory_region region ≡ done tt → acceptable region ≡ true
unfolding validate_memory_region
validate_memory_region-acceptable region h = ground arith

-- Cells `addr` up to `addr + left` of the map.
within : ℕ → ℕ → ℕ → Bool
within addr left j = leb addr j && ltb j (addr + left)

free :
    (b : Bool) (e : MemoryError) (rest : Fallible MemoryBus) (n : MemoryBus)
    → (if b then failed e else rest) ≡ done n
    → (b ≡ false) × (rest ≡ done n)
free true e rest n h = absurd (ground arith)
free false e rest n h = (refl, h)

done_injective : (m n : MemoryBus) → done m ≡ done n → m ≡ n
done_injective m n h = ground arith

record Mapped (left addr : ℕ) (kind : MemoryKind) (bus n : MemoryBus) (j : ℕ) : Type 0 where
  maps : n.mapped j ≡ (within addr left j || bus.mapped j)
  has_kind : n.kinds j ≡ (if within addr left j then kind else bus.kinds j)
  was_free : (within addr left j && bus.mapped j) ≡ false

map_cells_lem :
    (region : MemoryRegion) (left addr : ℕ) (bus n : MemoryBus)
    → map_cells region left addr bus ≡ done n
    → (j : ℕ) → Mapped left addr region.kind bus n j
unfolding map_cells within
map_cells_lem region zero addr bus n h j =
    subst (λ n. Mapped zero addr region.kind bus n j) (done_injective bus n h)
      (record { maps = ground arith; has_kind = ground arith; was_free = ground arith })
map_cells_lem region (suc left) addr bus n h j =
    let (here, rest) = free (bus.mapped addr) _ _ n h in
    let later = map_cells_lem region left (addr + 1) (map_cell region.kind addr bus) n rest j in
    record {
      maps = ground (arith, later.maps);
      has_kind = ground (arith, later.has_kind);
      was_free = ground (arith, here, later.was_free);
    }

-- What the regions make of a cell of the bus.
record Mapping (regions : List MemoryRegion) (bus n : MemoryBus) (j : ℕ) : Type 0 where
  maps : one_if (n.mapped j) ≡ covering regions j + one_if (bus.mapped j)
  has_kind : n.kinds j ≡ kind_in regions j (bus.kinds j)

bind_done :
    {A B : Type 0} (x : Fallible A) (f : A → Fallible B) (b : B)
    → (x >>= f) ≡ done b
    → (a : A) × (x ≡ done a) × (f a ≡ done b)
bind_done (done a) f b h = (a, refl, h)
bind_done (failed e) f b h = absurd (ground arith)

one_if-le : (b : Bool) → one_if b ≤ 1
one_if-le b = ground arith

kind_in-none :
    (regions : List MemoryRegion) (j : ℕ) (k : MemoryKind)
    → covering regions j ≡ 0
    → kind_in regions j k ≡ k
kind_in-none [] j k h = refl
kind_in-none (region ∷ regions) j k h = ground (arith, kind_in-none regions j k)

-- One region, in terms of what it covers.
region_cell :
    (region : MemoryRegion) (bus next : MemoryBus) (j : ℕ)
    → acceptable region ≡ true
    → Mapped (region.end + 1 - region.start) region.start region.kind bus next j
    → (one_if (next.mapped j) ≡ one_if (covers region j) + one_if (bus.mapped j))
      × (next.kinds j ≡ (if covers region j then region.kind else bus.kinds j))
unfolding within
region_cell region bus next j ok cells = ground (arith, cells.maps, cells.has_kind, cells.was_free)

add_region :
    (region : MemoryRegion) (regions : List MemoryRegion) (bus next n : MemoryBus) (j : ℕ)
    → (one_if (next.mapped j) ≡ one_if (covers region j) + one_if (bus.mapped j))
      × (next.kinds j ≡ (if covers region j then region.kind else bus.kinds j))
    → Mapping regions next n j
    → Mapping (region ∷ regions) bus n j
add_region region regions bus next n j cell later = record {
  maps = omega (arith, later.maps, cell.0);
  has_kind = elim (Bool-cases (covers region j)) [
    | inl e ↦
        let alone : covering regions j ≡ 0 =
          grind (arith, later.maps, cell.0, one_if-le (n.mapped j)) in
        later.has_kind ∙ kind_in-none regions j (next.kinds j) alone ∙ cell.1 ∙ rw e refl
    | inr e ↦ rw e (later.has_kind ∙ ap (kind_in regions j) (cell.1 ∙ rw e refl))
  ];
}

map_regions_lem :
    (regions : List MemoryRegion) (bus n : MemoryBus)
    → map_regions regions bus ≡ done n
    → (all_acceptable regions ≡ true) × ((j : ℕ) → Mapping regions bus n j)
unfolding map_regions
map_regions_lem [] bus n h = (
  refl,
  λ j.
      subst (λ n. Mapping [] bus n j) (done_injective bus n h)
        (record { maps = ground arith; has_kind = refl }),
)
map_regions_lem (region ∷ regions) bus n h =
    let cells = map_cells region (region.end + 1 - region.start) region.start bus in
    let (_, valid, mapping) = bind_done (validate_memory_region region) _ n h in
    let (next, first, rest) = bind_done cells _ n mapping in
    let ok = validate_memory_region-acceptable region valid in
    let (oks, later) = map_regions_lem regions next n rest in
    (
      ground (arith, ok, oks),
      λ j.
          add_region region regions bus next n j
            (region_cell region bus next j ok
              (map_cells_lem region (region.end + 1 - region.start) region.start bus next first j))
            (later j),
    )

validate_memory_region-done :
    (region : MemoryRegion) → acceptable region ≡ true → validate_memory_region region ≡ done tt
unfolding validate_memory_region
validate_memory_region-done region h = ground arith

map_cells-done :
    (region : MemoryRegion) (left addr : ℕ) (bus : MemoryBus)
    → ((j : ℕ) → within addr left j ≡ true → bus.mapped j ≡ false)
    → (n : MemoryBus) × (map_cells region left addr bus ≡ done n)
unfolding map_cells within
map_cells-done region zero addr bus h = (bus, refl)
map_cells-done region (suc left) addr bus h =
    let (n, e) =
      map_cells-done region left (addr + 1) (map_cell region.kind addr bus)
        (λ j p. ground (arith, h j)) in
    (n, rw (h addr (ground arith)) e)

region_free :
    (region : MemoryRegion) (count : ℕ) (bus : MemoryBus) (j : ℕ)
    → acceptable region ≡ true
    → one_if (covers region j) + count + one_if (bus.mapped j) ≤ 1
    → within region.start (region.end + 1 - region.start) j ≡ true
    → bus.mapped j ≡ false
unfolding within
region_free region count bus j ok once h = ground arith

map_regions-done :
    (regions : List MemoryRegion) (bus : MemoryBus)
    → all_acceptable regions ≡ true
    → ((j : ℕ) → covering regions j + one_if (bus.mapped j) ≤ 1)
    → (n : MemoryBus) × (map_regions regions bus ≡ done n)
unfolding map_regions
map_regions-done [] bus ok once = (bus, refl)
map_regions-done (region ∷ regions) bus ok once =
    let valid : acceptable region ≡ true = ground arith in
    let oks : all_acceptable regions ≡ true = ground arith in
    let left = region.end + 1 - region.start in
    let (next, first) =
      map_cells-done region left region.start bus
        (λ j. region_free region (covering regions j) bus j valid (once j)) in
    let (n, rest) = map_regions-done regions next oks (λ j.
      let cell =
        region_cell region bus next j valid
          (map_cells_lem region left region.start bus next first j) in
      omega (arith, once j, cell.0)) in
    (n, rw (validate_memory_region-done region valid, first) rest)

-- `NewMemoryBus` accepts every list of valid regions of which no two overlap.
pub new_memory_bus-done :
    (regions : List MemoryRegion)
    → all_acceptable regions ≡ true
    → ((addr : ℕ) → covering regions addr ≤ 1)
    → (n : MemoryBus) × (new_memory_bus regions ≡ done n)
unfolding new_memory_bus
new_memory_bus-done regions ok once =
    map_regions-done regions empty_bus ok (λ j. omega (arith, once j))

-- A list of regions that `NewMemoryBus` accepts has valid regions, of which no two overlap; a cell of
-- the bus is mapped when a region contains it, and has the kind of that region.
pub new_memory_bus_lem :
    (regions : List MemoryRegion) (n : MemoryBus)
    → new_memory_bus regions ≡ done n
    → (all_acceptable regions ≡ true)
      × ((addr : ℕ)
          → (covering regions addr ≤ 1)
            × (one_if (n.mapped addr) ≡ covering regions addr)
            × (n.kinds addr ≡ kind_in regions addr (MemoryKind.other "")))
unfolding new_memory_bus
new_memory_bus_lem regions n h =
    let (ok, mapping) = map_regions_lem regions empty_bus n h in
    (
      ok,
      λ addr.
          let counted : one_if (n.mapped addr) ≡ covering regions addr =
            omega (arith, (mapping addr).maps) in
          (omega (arith, counted, one_if-le (n.mapped addr)), counted, (mapping addr).has_kind),
    )
