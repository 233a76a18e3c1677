-- ===== src/Machine/Peripherals/Register.antt =====
-- The peripherals of a bus as devices with a place, and `RegisterPeripheral` of machine/peripheral.go.
use Prim.Native.String.{String}
use retronet.Base.{ℕ, [], ◌∷◌, Option, none, some}
use retronet.Cpu.Errors.{Error}
use retronet.Machine.Peripherals.{PeripheralBinding, PeripheralBus, PeripheralError, attach}

-- Where the state `S` of one peripheral lies among the devices of a bus.
pub record Place (D S : Type 0) : Type 0 where
  pub get : D → S
  pub put : S → D → D

-- A place that is all of the devices.
abbrev pub whole : {D : Type 0} → Place D D
whole = record { get = λ d. d; put = λ s _. s }

-- type RegisterPeripheral, NewRegisterPeripheral, Value and SetValue
pub record RegisterPeripheral : Type 0 where
  pub value : ℕ

abbrev pub new_register_peripheral : ℕ → RegisterPeripheral
new_register_peripheral initial = record { value = initial }

abbrev pub register_value : RegisterPeripheral → ℕ
register_value r = r.value

abbrev pub set_register_value : ℕ → RegisterPeripheral → RegisterPeripheral
set_register_value value r = record r { value = value }

abbrev pub register_binding :
    {D : Type 0} → Place D RegisterPeripheral → String → ℕ → ℕ → PeripheralBinding D
register_binding place name input_port output_port = record {
  name = name;
  inputs =
      record { port = input_port; handler = some (λ _ _ d. (register_value (place.get d), d)) }
      ∷ [];
  outputs =
      record {
        port = output_port;
        handler = some (λ _ value d. place.put (set_register_value value (place.get d)) d);
      }
      ∷ [];
}

-- A method with the bus as an argument, which may be nil.
abbrev pub on_peripheral_bus :
    {D : Type 0}
    → PeripheralBinding D
    → Option (PeripheralBus D)
    → Option PeripheralError × Option (PeripheralBus D)
on_peripheral_bus binding none = (some (PeripheralError.of_cpu Error.nil_io), none)
on_peripheral_bus binding (some b) = let (e, c) = attach binding b in (e, some c)

unfoldable pub attach_register :
    {D : Type 0}
    → Place D RegisterPeripheral
    → String
    → ℕ
    → ℕ
    → Option (PeripheralBus D)
    → Option PeripheralError × Option (PeripheralBus D)
unfolding attach
attach_register place name input_port output_port =
    on_peripheral_bus (register_binding place name input_port output_port)
