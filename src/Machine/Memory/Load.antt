-- ===== src/Machine/Memory/Load.antt =====
-- `LoadBytes` and `LoadROM` of `MemoryBus` (machine/memory.go): what they load, and when.
use retronet.Base.{
  ℕ, zero, suc, ◌+◌, ◌<◌, ◌≤◌, ◌≡◌, refl, arith, Bool, true, false, not, ◌&&◌, if◌then◌else◌, ◌==◌,
  ==_iff, List, [], ◌∷◌, length, get_or, ◌∙◌, sym, ap, subst,
}
use retronet.Cpu.Bus.{update}
use retronet.Machine.Errors.{MemoryKind, MemoryError, Fallible, done, failed, ◌>>=◌}
use retronet.Machine.Memory.{
  MemoryBus, is_rom, validate_range, check_writable, check_mapped, copy_data, burn, load_bytes,
  load_rom,
}
use retronet.Machine.Memory.Access.{is_writable}

copy_before :
    (m : MemoryBus) (index : ℕ) (xs : List ℕ) (j : ℕ)
    → j < index
    → (copy_data m index xs).data_bytes j ≡ m.data_bytes j
unfolding copy_data
copy_before m index [] j h = refl
copy_before m index (x ∷ xs) j h =
    ground
      (arith, copy_before (record m { data_bytes = update m.data_bytes index x }) (index + 1) xs j)

copy_behind :
    (m : MemoryBus) (index : ℕ) (xs : List ℕ) (j : ℕ)
    → index + length xs ≤ j
    → (copy_data m index xs).data_bytes j ≡ m.data_bytes j
unfolding copy_data
copy_behind m index [] j h = refl
copy_behind m index (x ∷ xs) j h =
    ground
      (arith, copy_behind (record m { data_bytes = update m.data_bytes index x }) (index + 1) xs j)

copy_inside :
    (m : MemoryBus) (index : ℕ) (xs : List ℕ) (k : ℕ)
    → k < length xs
    → (copy_data m index xs).data_bytes (index + k) ≡ get_or xs k 0
unfolding copy_data
copy_inside m index [] k h = absurd (omega arith)
copy_inside m index (x ∷ xs) zero h = ground (
  arith,
  copy_before (record m { data_bytes = update m.data_bytes index x }) (index + 1) xs (index + 0),
)
copy_inside m index (x ∷ xs) (suc k) h =
    let next = record m { data_bytes = update m.data_bytes index x } in
    let moved : index + 1 + k ≡ index + suc k = omega arith in
    sym (ap (copy_data next (index + 1) xs).data_bytes moved)
    ∙ copy_inside next (index + 1) xs k (omega arith)

copy_map :
    (m : MemoryBus) (index : ℕ) (xs : List ℕ)
    → ((copy_data m index xs).kinds ≡ m.kinds) × ((copy_data m index xs).mapped ≡ m.mapped)
unfolding copy_data
copy_map m index [] = (refl, refl)
copy_map m index (x ∷ xs) =
    copy_map (record m { data_bytes = update m.data_bytes index x }) (index + 1) xs

-- ROM is loaded with the same bytes.
abbrev burn_cell : MemoryBus → ℕ → ℕ → MemoryBus
burn_cell m index x = record m {
  data_bytes = update m.data_bytes index x;
  kinds = update m.kinds index MemoryKind.rom;
}

burn_data :
    (m n : MemoryBus) (index : ℕ) (xs : List ℕ)
    → m.data_bytes ≡ n.data_bytes
    → (burn m index xs).data_bytes ≡ (copy_data n index xs).data_bytes
unfolding burn copy_data
burn_data m n index [] e = e
burn_data m n index (x ∷ xs) e =
    burn_data (burn_cell m index x) (record n { data_bytes = update n.data_bytes index x })
      (index + 1) xs (ap (λ cells. update cells index x) e)

burn_mapped : (m : MemoryBus) (index : ℕ) (xs : List ℕ) → (burn m index xs).mapped ≡ m.mapped
unfolding burn
burn_mapped m index [] = refl
burn_mapped m index (x ∷ xs) = burn_mapped (burn_cell m index x) (index + 1) xs

update-other :
    {A : Type 0} (cells : ℕ → A) (index : ℕ) (a : A) (j : ℕ)
    → (j == index) ≡ false
    → update cells index a j ≡ cells j
update-other cells index a j h = rw h refl

update-same :
    {A : Type 0} (cells : ℕ → A) (index : ℕ) (a : A) (j : ℕ)
    → j ≡ index
    → update cells index a j ≡ a
update-same cells index a j h = rw ((==_iff j index).1 h) refl

burn_before :
    (m : MemoryBus) (index : ℕ) (xs : List ℕ) (j : ℕ)
    → j < index
    → (burn m index xs).kinds j ≡ m.kinds j
unfolding burn
burn_before m index [] j h = refl
burn_before m index (x ∷ xs) j h =
    burn_before (burn_cell m index x) (index + 1) xs j (omega arith)
    ∙ update-other m.kinds index MemoryKind.rom j (ground arith)

burn_behind :
    (m : MemoryBus) (index : ℕ) (xs : List ℕ) (j : ℕ)
    → index + length xs ≤ j
    → (burn m index xs).kinds j ≡ m.kinds j
unfolding burn
burn_behind m index [] j h = refl
burn_behind m index (x ∷ xs) j h =
    burn_behind (burn_cell m index x) (index + 1) xs j (omega arith)
    ∙ update-other m.kinds index MemoryKind.rom j (ground arith)

burn_inside :
    (m : MemoryBus) (index : ℕ) (xs : List ℕ) (k : ℕ)
    → k < length xs
    → (burn m index xs).kinds (index + k) ≡ MemoryKind.rom
unfolding burn
burn_inside m index [] k h = absurd (omega arith)
burn_inside m index (x ∷ xs) zero h =
    burn_before (burn_cell m index x) (index + 1) xs (index + 0) (omega arith)
    ∙ update-same m.kinds index MemoryKind.rom (index + 0) (omega arith)
burn_inside m index (x ∷ xs) (suc k) h =
    let moved : index + 1 + k ≡ index + suc k = omega arith in
    sym (ap (burn (burn_cell m index x) (index + 1) xs).kinds moved)
    ∙ burn_inside (burn_cell m index x) (index + 1) xs k (omega arith)

-- A loop of tests succeeds when every round does.
passed :
    (a b : Bool) (e f : MemoryError) (rest : Fallible (Unit {0}))
    → (if not a then failed e else if b then failed f else rest) ≡ done tt
    → ((a && not b) ≡ true) × (rest ≡ done tt)
passed true false e f rest h = (refl, h)
passed true true e f rest h = absurd (ground arith)
passed false b e f rest h = absurd (ground arith)

passing :
    (a b : Bool) (e f : MemoryError) (rest : Fallible (Unit {0}))
    → (a && not b) ≡ true
    → rest ≡ done tt
    → (if not a then failed e else if b then failed f else rest) ≡ done tt
passing true false e f rest h k = k
passing true true e f rest h k = absurd (ground arith)
passing false b e f rest h k = absurd (ground arith)

check_writable_sound :
    (m : MemoryBus) (index : ℕ) (xs : List ℕ)
    → check_writable m index xs ≡ done tt
    → (k : ℕ) → k < length xs
    → is_writable m (index + k) ≡ true
unfolding check_writable
check_writable_sound m index [] e k h = absurd (omega arith)
check_writable_sound m index (x ∷ xs) e zero h =
    subst (λ j. is_writable m j ≡ true) (omega arith)
      (passed (m.mapped index) (is_rom (m.kinds index)) _ _ _ e).0
check_writable_sound m index (x ∷ xs) e (suc k) h =
    subst (λ j. is_writable m j ≡ true) (omega arith)
      (check_writable_sound m (index + 1) xs
        (passed (m.mapped index) (is_rom (m.kinds index)) _ _ _ e).1 k (omega arith))

check_writable_complete :
    (m : MemoryBus) (index : ℕ) (xs : List ℕ)
    → ((k : ℕ) → k < length xs → is_writable m (index + k) ≡ true)
    → check_writable m index xs ≡ done tt
unfolding check_writable
check_writable_complete m index [] h = refl
check_writable_complete m index (x ∷ xs) h =
    let here : is_writable m index ≡ true =
      subst (λ j. is_writable m j ≡ true) (omega arith) (h 0 (omega arith)) in
    let rest =
      check_writable_complete m (index + 1) xs
        (λ k p. subst (λ j. is_writable m j ≡ true) (omega arith) (h (suc k) (omega arith))) in
    passing (m.mapped index) (is_rom (m.kinds index)) _ _ _ here rest

-- The tests of `LoadROM` are those of a bus whose cells are no ROM.
check_mapped_sound :
    (m : MemoryBus) (index : ℕ) (xs : List ℕ)
    → check_mapped m index xs ≡ done tt
    → (k : ℕ) → k < length xs
    → m.mapped (index + k) ≡ true
unfolding check_mapped
check_mapped_sound m index [] e k h = absurd (omega arith)
check_mapped_sound m index (x ∷ xs) e zero h =
    let here : m.mapped index ≡ true =
      ground (arith, (passed (m.mapped index) false _ (MemoryError.unmapped_memory 0) _ e).0) in
    subst (λ j. m.mapped j ≡ true) (omega arith) here
check_mapped_sound m index (x ∷ xs) e (suc k) h =
    subst (λ j. m.mapped j ≡ true) (omega arith)
      (check_mapped_sound m (index + 1) xs
        (passed (m.mapped index) false _ (MemoryError.unmapped_memory 0) _ e).1 k (omega arith))

check_mapped_complete :
    (m : MemoryBus) (index : ℕ) (xs : List ℕ)
    → ((k : ℕ) → k < length xs → m.mapped (index + k) ≡ true)
    → check_mapped m index xs ≡ done tt
unfolding check_mapped
check_mapped_complete m index [] h = refl
check_mapped_complete m index (x ∷ xs) h =
    let here : m.mapped index ≡ true =
      subst (λ j. m.mapped j ≡ true) (omega arith) (h 0 (omega arith)) in
    let rest =
      check_mapped_complete m (index + 1) xs
        (λ k p. subst (λ j. m.mapped j ≡ true) (omega arith) (h (suc k) (omega arith))) in
    rw here rest

validate_range_sound : (addr size : ℕ) → validate_range addr size ≡ done tt → addr + size ≤ 65536
unfolding validate_range
validate_range_sound addr size h = ground arith

validate_range_complete : (addr size : ℕ) → addr + size ≤ 65536 → validate_range addr size ≡ done tt
unfolding validate_range
validate_range_complete addr size h = ground arith

-- The bus `n` is `m` with the bytes of `xs` from `addr` on.
pub record IsLoaded (m n : MemoryBus) (addr : ℕ) (xs : List ℕ) : Type 0 where
  pub inside : (k : ℕ) → k < length xs → n.data_bytes (addr + k) ≡ get_or xs k 0
  pub before : (j : ℕ) → j < addr → n.data_bytes j ≡ m.data_bytes j
  pub behind : (j : ℕ) → addr + length xs ≤ j → n.data_bytes j ≡ m.data_bytes j
  pub same_mapped : n.mapped ≡ m.mapped

copy_data-IsLoaded :
    (m : MemoryBus) (addr : ℕ) (xs : List ℕ) → IsLoaded m (copy_data m addr xs) addr xs
copy_data-IsLoaded m addr xs = record {
  inside = copy_inside m addr xs;
  before = copy_before m addr xs;
  behind = copy_behind m addr xs;
  same_mapped = (copy_map m addr xs).1;
}

burn-IsLoaded : (m : MemoryBus) (addr : ℕ) (xs : List ℕ) → IsLoaded m (burn m addr xs) addr xs
burn-IsLoaded m addr xs =
    let same = burn_data m m addr xs refl in
    record {
      inside = λ k h. ap (λ cells. cells (addr + k)) same ∙ copy_inside m addr xs k h;
      before = λ j h. ap (λ cells. cells j) same ∙ copy_before m addr xs j h;
      behind = λ j h. ap (λ cells. cells j) same ∙ copy_behind m addr xs j h;
      same_mapped = burn_mapped m addr xs;
    }

-- The cells of the bytes take no writes, and the other cells have the kinds they had.
pub record IsBurnt (m n : MemoryBus) (addr : ℕ) (xs : List ℕ) : Type 0 where
  pub no_writes : (k : ℕ) → k < length xs → is_writable n (addr + k) ≡ false
  pub kinds_before : (j : ℕ) → j < addr → n.kinds j ≡ m.kinds j
  pub kinds_behind : (j : ℕ) → addr + length xs ≤ j → n.kinds j ≡ m.kinds j

bind_done :
    {A B : Type 0} (x : Fallible A) (f : A → Fallible B) (b : B)
    → (x >>= f) ≡ done b
    → (a : A) × (x ≡ done a) × (f a ≡ done b)
bind_done (done a) f b h = (a, refl, h)
bind_done (failed e) f b h = absurd (ground arith)

-- `LoadBytes` succeeds where the bytes fit the address space and every cell takes writes; then the
-- cells read as the bytes, and every other cell, the map and the kinds are as before.
pub load_bytes-IsLoaded :
    (m : MemoryBus) (addr : ℕ) (xs : List ℕ)
    → addr + length xs ≤ 65536
    → ((k : ℕ) → k < length xs → is_writable m (addr + k) ≡ true)
    → (n : MemoryBus) × (load_bytes m addr xs ≡ done n) × IsLoaded m n addr xs × (n.kinds ≡ m.kinds)
unfolding load_bytes
load_bytes-IsLoaded m addr xs h w = (
  copy_data m addr xs,
  rw (validate_range_complete addr (length xs) h, check_writable_complete m addr xs w) refl,
  copy_data-IsLoaded m addr xs,
  (copy_map m addr xs).0,
)

-- `LoadBytes` succeeds only where the bytes fit the address space and every cell is mapped and not ROM.
load_bytes_sound :
    (m n : MemoryBus) (addr : ℕ) (xs : List ℕ)
    → load_bytes m addr xs ≡ done n
    → (addr + length xs ≤ 65536) × ((k : ℕ) → k < length xs → is_writable m (addr + k) ≡ true)
unfolding load_bytes
load_bytes_sound m n addr xs h =
    let (_, range, rest) = bind_done (validate_range addr (length xs)) _ n h in
    let (_, cells, _) = bind_done (check_writable m addr xs) _ n rest in
    (validate_range_sound addr (length xs) range, check_writable_sound m addr xs cells)

-- `LoadROM` succeeds where the bytes fit the address space and every cell is mapped; then the cells
-- hold the bytes and take no more writes, every other cell keeps its byte and its kind, and the map is
-- as before.
pub load_rom-IsLoaded :
    (m : MemoryBus) (addr : ℕ) (xs : List ℕ)
    → addr + length xs ≤ 65536
    → ((k : ℕ) → k < length xs → m.mapped (addr + k) ≡ true)
    → (n : MemoryBus) × (load_rom m addr xs ≡ done n) × IsLoaded m n addr xs × IsBurnt m n addr xs
unfolding load_rom
load_rom-IsLoaded m addr xs h w = (
  burn m addr xs,
  rw (validate_range_complete addr (length xs) h, check_mapped_complete m addr xs w) refl,
  burn-IsLoaded m addr xs,
  record {
    no_writes = λ k p. ground (arith, burn_inside m addr xs k p);
    kinds_before = λ j h. burn_before m addr xs j h;
    kinds_behind = λ j h. burn_behind m addr xs j h;
  },
)
