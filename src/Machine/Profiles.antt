-- ===== src/Machine/Profiles.antt =====
-- machine/profile.go: the machines by name, and what is loaded into their memory.
pub mod Table
pub mod Loading
pub mod Loads
use Prim.Native.Nat.{Ordering}
use Prim.Native.String.{String, compare}
use text.Mathlib.Text.{◌==◌ as str_eq}
use retronet.Base.{
  ℕ, zero, suc, ◌+◌, Bool, true, false, ◌&&◌, if◌then◌else◌, ltb, List, [], ◌∷◌, ◌++◌, map, length,
  Option, none, some, u16,
}
use retronet.Cpu.Errors.{Error}
use retronet.Cpu.Bus.{Memory}
use retronet.Machine.Errors.{MemoryKind, MemoryError, Fallible, done, failed}
use retronet.Machine.Memory.{
  MemoryRegion, MemoryBus, new_memory_bus, validate_range, load_bytes, load_rom, address_space_size,
}
use retronet.Machine.Peripherals.{IoDirection}
use retronet.Machine.Terminal.{terminal_output_port}

pub record RomSlot : Type 0 where
  pub name : String
  pub address : ℕ
  pub max_size : ℕ
  pub required : Bool
  pub description : String

pub record IoPort : Type 0 where
  pub port : ℕ
  pub direction : IoDirection
  pub name : String
  pub historical : Bool
  pub description : String

pub record RomHint : Type 0 where
  pub name : String
  pub slot : String
  pub included : Bool
  pub description : String

pub record Profile : Type 0 where
  pub name : String
  pub description : String
  pub historical_note : String
  pub default_load_address : ℕ
  pub default_start_pc : ℕ
  pub default_step_limit : ℕ
  pub rom_slots : List RomSlot
  pub memory_regions : List MemoryRegion
  pub io_ports : List IoPort
  pub rom_hints : List RomHint

abbrev pub default_step_limit : ℕ
default_step_limit = 1000

abbrev pub flat_memory_region : String → MemoryKind → String → List MemoryRegion
flat_memory_region name kind description =
    record { name = name; start = 0x0000; end = 0xFFFF; kind = kind; description = description }
    ∷ []

abbrev pub monitor_and_test_slots : List RomSlot
monitor_and_test_slots =
    record {
      name = "monitor";
      address = 0x0000;
      max_size = address_space_size;
      required = false;
      description = "Monitor/bootstrap locale caricato dall'utente.";
    }
    ∷ record {
      name = "test";
      address = 0x0000;
      max_size = address_space_size;
      required = false;
      description = "ROM locale di smoke test caricata a 0x0000.";
    }
    ∷ []

abbrev pub callback_console_ports : List IoPort
callback_console_ports =
    record {
      port = 0;
      direction = IoDirection.input;
      name = "callback-input-0";
      historical = false;
      description =
          "Porta input convenzionale per test, terminale o front panel emulato via callback.";
    }
    ∷ record {
      port = terminal_output_port;
      direction = IoDirection.output;
      name = "callback-output-1";
      historical = false;
      description =
          "Porta output convenzionale per test, terminale o front panel emulato via callback.";
    }
    ∷ []

abbrev pub monitor_and_test_hints : String → List RomHint
monitor_and_test_hints monitor_description =
    record {
      name = "monitor";
      slot = "monitor";
      included = false;
      description = monitor_description;
    }
    ∷ record {
      name = "io-smoke";
      slot = "test";
      included = false;
      description =
          "ROM locale minima: IN 0, OUT 1, HLT; valida loader e callback I/O senza dipendere da ROM storiche.";
    }
    ∷ []

abbrev pub generic : Profile
generic = record {
  name = "generic";
  description = "Macchina piatta generica: 64 KB, nessuna ROM predefinita.";
  historical_note = "Profilo didattico senza macchina storica associata.";
  default_load_address = 0x0000;
  default_start_pc = 0x0000;
  default_step_limit = default_step_limit;
  rom_slots = [];
  memory_regions =
      flat_memory_region "direct-memory" MemoryKind.ram
        "Spazio 8080 usato come RAM piatta per test e binari raw.";
  io_ports = [];
  rom_hints = [];
}

abbrev pub altair_8800 : Profile
altair_8800 = record {
  name = "altair-8800";
  description = "Profilo conservativo per sistemi Altair 8800; ROM locali non incluse.";
  historical_note =
      "Altair 8800 e' una macchina storica centrale per l'8080, ma questo profilo non inventa mappe di schede, ROM o periferiche non verificate.";
  default_load_address = 0x0000;
  default_start_pc = 0x0000;
  default_step_limit = default_step_limit;
  rom_slots = monitor_and_test_slots;
  memory_regions =
      flat_memory_region "altair-memory" MemoryKind.mixed
        "Spazio 8080 completo; resta scrivibile salvo gli intervalli occupati da ROM locali.";
  io_ports = callback_console_ports;
  rom_hints = monitor_and_test_hints "Monitor o ROM diagnostica locale per Altair 8800.";
}

abbrev pub imsai_8080 : Profile
imsai_8080 = record {
  name = "imsai-8080";
  description = "Profilo conservativo per sistemi IMSAI 8080; ROM locali non incluse.";
  historical_note =
      "IMSAI 8080 era un sistema S-100 basato su Intel 8080; la mappa qui resta intenzionalmente generica finche' non vengono aggiunte fonti primarie.";
  default_load_address = 0x0000;
  default_start_pc = 0x0000;
  default_step_limit = default_step_limit;
  rom_slots = monitor_and_test_slots;
  memory_regions =
      flat_memory_region "imsai-memory" MemoryKind.mixed
        "Spazio 8080 completo; resta scrivibile salvo gli intervalli occupati da ROM locali.";
  io_ports = callback_console_ports;
  rom_hints =
      monitor_and_test_hints
        "Monitor locale o ROM diagnostica IMSAI caricata esplicitamente dall'utente.";
}

abbrev pub cpm_dev : Profile
cpm_dev = record {
  name = "cpm-dev";
  description = "Profilo didattico non storico per futuri test CP/M-like.";
  historical_note =
      "Questo profilo prepara memoria e console convenzionale, ma non implementa BDOS, BIOS, dischi o CP/M reale.";
  default_load_address = 0x0000;
  default_start_pc = 0x0000;
  default_step_limit = default_step_limit;
  rom_slots = monitor_and_test_slots;
  memory_regions =
      flat_memory_region "cpm-dev-memory" MemoryKind.mixed
        "Spazio 8080 completo per programmi raw e ROM locali.";
  io_ports = callback_console_ports;
  rom_hints = monitor_and_test_hints "Monitor didattico o smoke ROM locale dell'utente.";
}

abbrev pub profiles : List Profile
profiles = generic ∷ altair_8800 ∷ imsai_8080 ∷ cpm_dev ∷ []

-- the four copies of slices
abbrev pub clone_profile : Profile → Profile
clone_profile p = record p {
  rom_slots = [] ++ p.rom_slots;
  memory_regions = [] ++ p.memory_regions;
  io_ports = [] ++ p.io_ports;
  rom_hints = [] ++ p.rom_hints;
}

abbrev name_less : Profile → Profile → Bool
name_less a b = elim (compare a.name b.name) [ Ordering.lt ↦ true | _ ↦ false ]

-- `sort.Slice`, as an insertion sort: no two profiles have one name
unfoldable pub insert_profile : Profile → List Profile → List Profile
insert_profile x [] = x ∷ []
insert_profile x (y ∷ ys) =
    let rest = insert_profile x ys in if name_less y x then y ∷ rest else x ∷ y ∷ ys

unfoldable pub sort_profiles : List Profile → List Profile
unfolding insert_profile
sort_profiles [] = []
sort_profiles (x ∷ xs) = insert_profile x (sort_profiles xs)

-- Profiles
unfoldable pub sorted_profiles : List Profile
unfolding sort_profiles
sorted_profiles = sort_profiles (map clone_profile profiles)

-- Lookup is `find_profile name profiles`
unfoldable pub find_profile : String → List Profile → Option Profile
find_profile name [] = none
find_profile name (p ∷ ps) =
    if str_eq p.name name then some (clone_profile p) else find_profile name ps

unfoldable pub lookup_profile : String → Option Profile
unfolding find_profile
lookup_profile name = find_profile name profiles

-- Profile.ROMSlot is `find_slot name p.rom_slots`
unfoldable pub find_slot : String → List RomSlot → Option RomSlot
find_slot name [] = none
find_slot name (slot ∷ slots) = if str_eq slot.name name then some slot else find_slot name slots

unfoldable pub rom_slot : Profile → String → Option RomSlot
unfolding find_slot
rom_slot p name = find_slot name p.rom_slots

-- Profile.NewMemory
unfoldable pub new_memory : Profile → Fallible MemoryBus
new_memory p = new_memory_bus p.memory_regions
