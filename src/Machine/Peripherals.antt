-- ===== src/Machine/Peripherals.antt =====
-- machine/peripheral.go: the owners of the ports of a callback bus, and the register peripheral.
pub mod Check
pub mod Attach
pub mod Detach
pub mod Owners
pub mod Calls
pub mod Register
use Prim.Native.String.{String}
use text.Mathlib.Text.{◌==◌ as str_eq}
use retronet.Base.{
  ℕ, zero, suc, ◌+◌, Bool, true, false, not, ◌&&◌, ◌||◌, if◌then◌else◌, ltb, List, [], ◌∷◌, ◌++◌,
  Option, none, some, ◌⊎◌, inl, inr,
}
use retronet.Cpu.Errors.{Error}
use retronet.Cpu.Bus.{update, validate_input_port, validate_output_port}
use retronet.Machine.Callbacks.{CallbackIo, InputCallback, OutputCallback}

-- type IODirection of machine/profile.go
pub data IoDirection : Type 0 where
  input output : IoDirection

-- The error variables of the file, those of package cpu, and the messages that Attach builds.
pub data PeripheralError : Type 0 where
  name_required : PeripheralError
  of_cpu : Error → PeripheralError
  nil_callback duplicate_port : String → IoDirection → ℕ → PeripheralError
  port_in_use : IoDirection → ℕ → String → PeripheralError
  not_found : String → PeripheralError

-- PeripheralInput and PeripheralOutput: a port with a handler, which may be nil
pub record PortHandler (H : Type 0) : Type 0 where
  pub port : ℕ
  pub handler : Option H

pub record PeripheralBinding (D : Type 0) : Type 0 where
  pub name : String
  pub inputs : List (PortHandler (InputCallback D))
  pub outputs : List (PortHandler (OutputCallback D))

pub record PortBinding : Type 0 where
  pub peripheral : String
  pub direction : IoDirection
  pub port : ℕ

-- type PeripheralBus; "" is the owner of a port that has none
pub record PeripheralBus (D : Type 0) : Type 0 where
  pub io : CallbackIo D
  pub input_owners : ℕ → String
  pub output_owners : ℕ → String

unfoldable pub new_peripheral_bus :
    {D : Type 0} → Option (CallbackIo D) → PeripheralError ⊎ PeripheralBus D
new_peripheral_bus none = inl (PeripheralError.of_cpu Error.nil_io)
new_peripheral_bus (some io) =
    inr (record { io = io; input_owners = λ _. ""; output_owners = λ _. "" })

abbrev pub is_empty : String → Bool
is_empty s = str_eq s ""

abbrev pub has : {A : Type 0} → Option A → Bool
has none = false
has (some _) = true

-- what the loops of `Detach` change
pub record Side (H : Type 0) : Type 0 where
  pub found : Bool
  pub owners : ℕ → String
  pub callbacks : ℕ → Option H

-- What is the same for the inputs and the outputs of a bus, with the handlers `H`.
module _ {H : Type 0} where
  -- inputOwner and outputOwner
  unfoldable pub owner_of : (ℕ → String) → (ℕ → Option H) → ℕ → String
  owner_of owners callbacks port =
      if not (is_empty (owners port))
      then owners port
      else if has (callbacks port)
      then "callback-esterno"
      else ""

  -- the two validating loops of `Attach`; `seen` is the set of the ports before
  unfoldable pub check_ports :
      (ℕ → Option Error)
      → IoDirection
      → String
      → (ℕ → String)
      → (ℕ → Option H)
      → (ℕ → Bool)
      → List (PortHandler H)
      → Option PeripheralError
  unfolding owner_of
  check_ports validate direction name owners callbacks seen [] = none
  check_ports validate direction name owners callbacks seen (x ∷ xs) =
      let rest =
        check_ports validate direction name owners callbacks (update seen x.port true) xs in
      elim (validate x.port) [
        | some e ↦ some (PeripheralError.of_cpu e)
        | none ↦
            (if not (has x.handler)
              then some (PeripheralError.nil_callback name direction x.port)
              else if seen x.port
              then some (PeripheralError.duplicate_port name direction x.port)
              else if not (is_empty (owner_of owners callbacks x.port))
              then some
                  (PeripheralError.port_in_use direction x.port (owner_of owners callbacks x.port))
              else rest)
      ]

  -- the two assigning loops of `Attach`
  unfoldable pub assign_callbacks : List (PortHandler H) → (ℕ → Option H) → ℕ → Option H
  assign_callbacks [] callbacks = callbacks
  assign_callbacks (x ∷ xs) callbacks = assign_callbacks xs (update callbacks x.port x.handler)

  unfoldable pub assign_owners : String → List (PortHandler H) → (ℕ → String) → ℕ → String
  assign_owners name [] owners = owners
  assign_owners name (x ∷ xs) owners = assign_owners name xs (update owners x.port name)

  abbrev pub free_port : String → ℕ → Side H → Side H
  free_port name port s =
      if str_eq (s.owners port) name
      then record {
        found = true;
        owners = update s.owners port "";
        callbacks = update s.callbacks port none;
      }
      else s

  -- the loop over the ports, with the rounds left
  unfoldable pub free_ports : String → ℕ → ℕ → Side H → Side H
  free_ports name zero port s = s
  free_ports name (suc left) port s = free_ports name left (port + 1) (free_port name port s)

module _ {D : Type 0} where
  abbrev pub check_binding : PeripheralBinding D → PeripheralBus D → Option PeripheralError
  check_binding binding b =
      elim (check_ports validate_input_port IoDirection.input binding.name b.input_owners
        b.io.input_callbacks (λ _. false) binding.inputs) [
          | some e ↦ some e
          | none ↦
              check_ports validate_output_port IoDirection.output binding.name b.output_owners
                b.io.output_callbacks (λ _. false) binding.outputs
        ]

  abbrev pub assign : PeripheralBinding D → PeripheralBus D → PeripheralBus D
  assign binding b = record b {
    io = record b.io {
      input_callbacks = assign_callbacks binding.inputs b.io.input_callbacks;
      output_callbacks = assign_callbacks binding.outputs b.io.output_callbacks;
    };
    input_owners = assign_owners binding.name binding.inputs b.input_owners;
    output_owners = assign_owners binding.name binding.outputs b.output_owners;
  }

  -- A method returns its error, or none for nil, and the bus behind it.
  unfoldable pub attach :
      PeripheralBinding D → PeripheralBus D → Option PeripheralError × PeripheralBus D
  unfolding check_ports assign_callbacks assign_owners
  attach binding b =
      if is_empty binding.name
      then (some PeripheralError.name_required, b)
      else elim (check_binding binding b) [ some e ↦ (some e, b) | none ↦ (none, assign binding b) ]

  abbrev pub input_side : String → PeripheralBus D → Side (InputCallback D)
  input_side name b =
      free_ports name 256 0
        (record { found = false; owners = b.input_owners; callbacks = b.io.input_callbacks })

  abbrev pub output_side : Bool → String → PeripheralBus D → Side (OutputCallback D)
  output_side found name b =
      free_ports name 256 0
        (record { found = found; owners = b.output_owners; callbacks = b.io.output_callbacks })

  unfoldable pub detach : String → PeripheralBus D → Option PeripheralError × PeripheralBus D
  detach name b =
      let inputs = input_side name b in
      let outputs = output_side inputs.found name b in
      (
        (if outputs.found then none else some (PeripheralError.not_found name)),
        record b {
          io = record b.io {
            input_callbacks = inputs.callbacks;
            output_callbacks = outputs.callbacks;
          };
          input_owners = inputs.owners;
          output_owners = outputs.owners;
        },
      )

-- the two listing loops of `Bindings`, with the rounds left
unfoldable pub owned_ports : IoDirection → (ℕ → String) → ℕ → ℕ → List PortBinding
owned_ports direction owners zero port = []
owned_ports direction owners (suc left) port =
    let rest = owned_ports direction owners left (port + 1) in
    if is_empty (owners port)
    then rest
    else record { peripheral = owners port; direction = direction; port = port } ∷ rest

-- the order of the sort: the directions by their texts, then the ports
abbrev pub binding_less : PortBinding → PortBinding → Bool
binding_less a b = elim a.direction [
  | IoDirection.input ↦ elim b.direction [
    | IoDirection.input ↦ ltb a.port b.port
    | IoDirection.output ↦ true
  ]
  | IoDirection.output ↦ elim b.direction [
    | IoDirection.input ↦ false
    | IoDirection.output ↦ ltb a.port b.port
  ]
]

-- `sort.Slice`, as an insertion sort: no two bindings of a list are equal in the order
unfoldable pub insert_binding : PortBinding → List PortBinding → List PortBinding
insert_binding x [] = x ∷ []
insert_binding x (y ∷ ys) =
    let rest = insert_binding x ys in if binding_less y x then y ∷ rest else x ∷ y ∷ ys

unfoldable pub sort_bindings : List PortBinding → List PortBinding
unfolding insert_binding
sort_bindings [] = []
sort_bindings (x ∷ xs) = insert_binding x (sort_bindings xs)

unfoldable pub bindings : {D : Type 0} → PeripheralBus D → List PortBinding
unfolding sort_bindings owned_ports
bindings b = sort_bindings (
    owned_ports IoDirection.input b.input_owners 256 0
    ++ owned_ports IoDirection.output b.output_owners 256 0)
