-- ===== src/Tests/Buses.antt =====
-- Devices on the ports, an observed memory and the profiles: the theorems on package machine at work.
use retronet.Base.{
  ℕ, ◌+◌, ◌≡◌, ◌≢◌, ◌↔◌, ◌⊎◌, refl, arith, false, List, [], ◌∷◌, length, none, some,
}
use retronet.Cpu.Bus.{FlatMemory, flat_memory, validate_input_port, validate_output_port}
use retronet.Machine.Errors.{done}
use retronet.Machine.Memory.{MemoryBus, memory_bus}
use retronet.Machine.Memory.Load.{IsLoaded, IsBurnt}
use retronet.Machine.Callbacks.{CallbackIo, new_callback_io}
use retronet.Machine.Callbacks.Calls.{
  BusCall, set_call, input_call, output_call, value_call, bus_calls, port_calls, latched_of,
  with_ports, bus_calls-port_calls,
}
use retronet.Machine.Peripherals.{PeripheralBus, PeripheralBinding, owner_of, attach, detach}
use retronet.Machine.Peripherals.Register.{
  RegisterPeripheral, new_register_peripheral, whole, register_binding,
}
use retronet.Machine.Peripherals.Attach.{
  IsAcceptable, HasTaken, attach-IsAcceptable, attach-HasTaken,
}
use retronet.Machine.Peripherals.Detach.{HasFreed, Owns, detach-HasFreed}
use retronet.Machine.Peripherals.Owners.{detach-attach, detach_unnamed}
use retronet.Machine.Peripherals.Calls.{
  IsOwned, attaches, detaches, call_peripherals, call_peripherals-IsOwned,
}
use retronet.Machine.Terminal.{
  Terminal, Writer, new_terminal, default_terminal_config, attach_ports,
}
use retronet.Machine.Terminal.Queue.{
  PlaceLaws, attached, fed, read_port, terminal_of, read_port-queue_input,
}
use retronet.Machine.Observed.{MemoryWrite, ObservableMemory, observable_memory}
use retronet.Machine.Observed.Reports.{
  Request, write_list, reports, report_all, write_list-observed_write,
}
use retronet.Machine.Debugger.Recording.{record_memory_write}
use retronet.Machine.Profiles.{altair_8800, lookup_profile, rom_slot, RomSlot, new_memory}
use retronet.Machine.Profiles.Loads.{load_slot, bus_loaders}
use retronet.Machine.Profiles.Table.{IsOpen, lookup_profile-new_memory, load_slot-IsLoaded}
use retronet.Tests.Samples.{sample_memory}

whole-PlaceLaws : {S : Type 0} → PlaceLaws (whole {D = S})
whole-PlaceLaws = record { get-put = λ s d. refl }

-- A register on input 3 and output 4.
abbrev register : PeripheralBinding RegisterPeripheral
register = register_binding whole "reg" 3 4

abbrev empty_ports : PeripheralBus RegisterPeripheral
empty_ports = record {
  io = new_callback_io (new_register_peripheral 0x12);
  input_owners = λ _. "";
  output_owners = λ _. "";
}

attach-IsAcceptable_example :
    (((attach register empty_ports).0 ≡ none) ↔ IsAcceptable register empty_ports)
    × (((attach register empty_ports).0 ≡ none) ⊎ ((attach register empty_ports).1 ≡ empty_ports))
attach-IsAcceptable_example = attach-IsAcceptable register empty_ports

register_attached : (attach register empty_ports).0 ≡ none
unfolding attach validate_input_port validate_output_port
register_attached = refl

attach-HasTaken_example :
    let b = (attach register empty_ports).1 in
    HasTaken "reg" register.inputs (λ _. "") b.input_owners (λ _. none) b.io.input_callbacks
    × HasTaken "reg" register.outputs (λ _. "") b.output_owners (λ _. none) b.io.output_callbacks
attach-HasTaken_example = attach-HasTaken register empty_ports register_attached

unnamed-ne-register : empty_ports.input_owners 0 ≢ register.name
unnamed-ne-register e = absurd (cc e)

detach-attach_example : (detach "reg" (attach register empty_ports).1).1 ≡ empty_ports
detach-attach_example =
    detach-attach register empty_ports register_attached (omega arith, tt) (omega arith, tt)
      (λ port. (unnamed-ne-register, unnamed-ne-register))

detach-HasFreed_example :
    let c = (detach "reg" empty_ports).1 in
    HasFreed "reg" (λ _. "") c.input_owners (λ _. none) c.io.input_callbacks
    × HasFreed "reg" (λ _. "") c.output_owners (λ _. none) c.io.output_callbacks
    × (((detach "reg" empty_ports).0 ≡ none) ↔ Owns "reg" empty_ports)
detach-HasFreed_example = detach-HasFreed "reg" empty_ports

-- A bus on which `OnInput` and `OnOutput` have set callbacks.
abbrev register_io : CallbackIo ℕ
register_io = record (new_callback_io 0x12) {
  input_callbacks = λ _. some (λ _ _ d. (d, d));
  output_callbacks = λ _. some (λ _ value _. value);
}

abbrev wired_ports : PeripheralBus ℕ
wired_ports = record { io = register_io; input_owners = λ _. ""; output_owners = λ _. "" }

detach_unnamed_example :
    let (e, c) = detach "" wired_ports in
    (owner_of wired_ports.input_owners wired_ports.io.input_callbacks 2 ≡ "callback-esterno")
    × (owner_of wired_ports.output_owners wired_ports.io.output_callbacks 5 ≡ "callback-esterno")
    × (e ≡ none)
    × (c.io.input_callbacks 2 ≡ none)
    × (c.io.output_callbacks 5 ≡ none)
detach_unnamed_example =
    detach_unnamed wired_ports 2 5 (λ _ _ d. (d, d)) (λ _ value _. value) (omega arith)
      (omega arith) refl refl refl refl

call_peripherals-IsOwned_example :
    IsOwned (call_peripherals (attaches register ∷ detaches "reg" ∷ []) empty_ports)
call_peripherals-IsOwned_example =
    call_peripherals-IsOwned (attaches register ∷ detaches "reg" ∷ []) empty_ports (record {
      input_served = λ port h. absurd (h refl);
      output_served = λ port h. absurd (h refl);
    })

-- Two reads around a write, and what the latches then hold.
abbrev echo_calls : List BusCall
echo_calls = set_call 2 0x55 ∷ input_call 2 ∷ output_call 5 0x21 ∷ input_call 2 ∷ value_call 5 ∷ []

bus_calls-port_calls_example :
    let r = port_calls register_io echo_calls (latched_of register_io) in
    bus_calls echo_calls register_io ≡ (r.0, with_ports register_io r.1)
bus_calls-port_calls_example = bus_calls-port_calls echo_calls register_io

-- A writer that counts its bytes, and a terminal on input 0 with the latch 0x55.
abbrev counting : Writer ℕ
counting = record { write = λ n bytes. (none, n + length bytes) }

abbrev terminal_io : CallbackIo (Terminal ℕ)
terminal_io = record (new_callback_io (new_terminal (some 0))) { inputs = λ _. 0x55 }

abbrev terminal_attached : CallbackIo (Terminal ℕ)
terminal_attached =
    attached ⦃writer = counting⦄ whole whole-PlaceLaws default_terminal_config terminal_io

terminal_attached_lem :
    attach_ports ⦃writer = counting⦄ whole default_terminal_config (some terminal_io)
    ≡ (none, some terminal_attached)
unfolding attach_ports validate_input_port validate_output_port
terminal_attached_lem = refl

read_port-queue_input_example :
    let x =
      read_port 3 0
        (fed ⦃writer = counting⦄ whole whole-PlaceLaws (0x41 ∷ 0x42 ∷ []) terminal_attached) in
    (x.0 ≡ 0x41 ∷ 0x42 ∷ 0x55 ∷ [])
    × ((terminal_of ⦃writer = counting⦄ whole whole-PlaceLaws x.1).input ≡ [])
read_port-queue_input_example =
    read_port-queue_input ⦃writer = counting⦄ whole whole-PlaceLaws default_terminal_config
      terminal_io terminal_attached (0x41 ∷ 0x42 ∷ []) 3 terminal_attached_lem refl

-- A recording memory, and two writes to one address.
abbrev recording_memory : ObservableMemory FlatMemory (List MemoryWrite)
recording_memory = record {
  base = sample_memory;
  observers = record_memory_write whole ∷ [];
  watchers = [];
}

abbrev two_writes : List Request
two_writes = (0x2000, 7) ∷ (0x2000, 9) ∷ []

write_list-observed_write_example :
    let n =
      write_list ⦃memory = observable_memory ⦃memory = flat_memory⦄⦄ two_writes recording_memory in
    (n.base ≡ write_list ⦃memory = flat_memory⦄ two_writes sample_memory)
    × (n.observers ≡ record_memory_write whole ∷ [])
    × (n.watchers
        ≡ report_all
            (record_memory_write whole ∷ [])
            (reports ⦃memory = flat_memory⦄ two_writes sample_memory)
            [])
write_list-observed_write_example =
    write_list-observed_write ⦃memory = flat_memory⦄ two_writes recording_memory
      (omega arith, (omega arith, tt))

lookup_profile-new_memory_example :
    (altair_8800.name ≡ "altair-8800")
    × ((m : MemoryBus) × (new_memory altair_8800 ≡ done m) × IsOpen m)
unfolding lookup_profile
lookup_profile-new_memory_example = lookup_profile-new_memory "altair-8800" altair_8800 refl

abbrev monitor_slot : RomSlot
monitor_slot = record {
  name = "monitor";
  address = 0;
  max_size = 65536;
  required = false;
  description = "Monitor/bootstrap locale caricato dall'utente.";
}

load_slot-IsLoaded_example :
    (m : MemoryBus) × (n : MemoryBus) × (new_memory altair_8800 ≡ done m)
    × (load_slot ⦃memory = memory_bus⦄ ⦃loaders = bus_loaders⦄ altair_8800 "monitor"
          (0xC3 ∷ 0x00 ∷ 0x01 ∷ [])
          (some m)
        ≡ (none, some n))
    × IsLoaded m n 0 (0xC3 ∷ 0x00 ∷ 0x01 ∷ [])
    × IsBurnt m n 0 (0xC3 ∷ 0x00 ∷ 0x01 ∷ [])
unfolding lookup_profile rom_slot
load_slot-IsLoaded_example =
    load_slot-IsLoaded "altair-8800" "monitor" altair_8800 monitor_slot (0xC3 ∷ 0x00 ∷ 0x01 ∷ [])
      refl refl (omega arith)
