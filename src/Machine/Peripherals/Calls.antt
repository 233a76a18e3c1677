-- ===== src/Machine/Peripherals/Calls.antt =====
-- Sequences of `Attach` and `Detach` (machine/peripheral.go): every owned port keeps a callback.
use Prim.Native.String.{String}
use retronet.Base.{ℕ, ◌≡◌, ◌≢◌, arith, true, List, [], ◌∷◌, Option, Bool-cases, inl, inr, ◌==◌}
use retronet.Machine.Peripherals.{
  PortHandler, PeripheralBinding, PeripheralBus, has, attach, detach,
}
use retronet.Machine.Peripherals.Check.{All, IsFree}
use retronet.Machine.Peripherals.Attach.{
  HasTaken, entry, or_else, attach-IsAcceptable, attach-HasTaken,
}
use retronet.Machine.Peripherals.Detach.{HasFreed, detach-HasFreed}

-- A port with an owner has a callback.
abbrev pub IsServed : {H : Type 0} → (ℕ → String) → (ℕ → Option H) → Type 0
IsServed owners callbacks = (port : ℕ) → owners port ≢ "" → has (callbacks port) ≡ true

pub record IsOwned {D : Type 0} (b : PeripheralBus D) : Type 0 where
  pub input_served : IsServed b.input_owners b.io.input_callbacks
  pub output_served : IsServed b.output_owners b.io.output_callbacks

module _ {H : Type 0} where
  entry_handled :
      (owners : ℕ → String) (callbacks : ℕ → Option H) (xs : List (PortHandler H)) (port : ℕ)
      → All (IsFree owners callbacks) xs
      → has (entry xs port) ≡ true
      → has (or_else (entry xs port) (callbacks port)) ≡ true
  entry_handled owners callbacks [] port free h = absurd (cc h)
  entry_handled owners callbacks (x ∷ xs) port free h = elim (Bool-cases (port == x.port)) [
    | inl e ↦ rw e free.0.handled
    | inr e ↦ rw e (entry_handled owners callbacks xs port free.1 (rw e at h))
  ]

  taken-IsServed :
      (name : String) (xs : List (PortHandler H)) (owners next_owners : ℕ → String)
      (callbacks next_callbacks : ℕ → Option H)
      → All (IsFree owners callbacks) xs
      → HasTaken name xs owners next_owners callbacks next_callbacks
      → IsServed owners callbacks
      → IsServed next_owners next_callbacks
  taken-IsServed name xs owners next_owners callbacks next_callbacks free taken served port h =
      elim (Bool-cases (has (entry xs port))) [
        | inl e ↦ ground (arith, taken.callback port, entry_handled owners callbacks xs port free e)
        | inr e ↦ ground (arith, taken.callback port, taken.owner port, served port)
      ]

  freed-IsServed :
      (name : String) (owners next_owners : ℕ → String) (callbacks next_callbacks : ℕ → Option H)
      → HasFreed name owners next_owners callbacks next_callbacks
      → IsServed owners callbacks
      → IsServed next_owners next_callbacks
  freed-IsServed name owners next_owners callbacks next_callbacks freed served port h =
      ground (arith, freed.owner port, freed.callback port, served port)

-- A call of the two methods.
pub data PeripheralCall (D : Type 0) : Type 0 where
  attaches : PeripheralBinding D → PeripheralCall D
  detaches : String → PeripheralCall D

module _ {D : Type 0} where
  abbrev pub call_peripheral : PeripheralCall D → PeripheralBus D → PeripheralBus D
  call_peripheral (attaches binding) b = (attach binding b).1
  call_peripheral (detaches name) b = (detach name b).1

  abbrev pub call_peripherals : List (PeripheralCall D) → PeripheralBus D → PeripheralBus D
  call_peripherals [] b = b
  call_peripherals (call ∷ calls) b = call_peripherals calls (call_peripheral call b)

  attach-IsOwned :
      (binding : PeripheralBinding D) (b : PeripheralBus D)
      → IsOwned b
      → IsOwned (attach binding b).1
  attach-IsOwned binding b owned = elim ((attach-IsAcceptable binding b).1) [
    | inr e ↦ rw e owned
    | inl e ↦
        (let ok = (attach-IsAcceptable binding b).0.0 e in
          let taken = attach-HasTaken binding b e in
          record {
            input_served =
                taken-IsServed binding.name binding.inputs _ _ _ _ ok.free_inputs taken.0
                  owned.input_served;
            output_served =
                taken-IsServed binding.name binding.outputs _ _ _ _ ok.free_outputs taken.1
                  owned.output_served;
          })
  ]

  call-IsOwned :
      (call : PeripheralCall D) (b : PeripheralBus D) → IsOwned b → IsOwned (call_peripheral call b)
  call-IsOwned (attaches binding) b owned = attach-IsOwned binding b owned
  call-IsOwned (detaches name) b owned =
      let freed = detach-HasFreed name b in
      record {
        input_served = freed-IsServed name _ _ _ _ freed.0 owned.input_served;
        output_served = freed-IsServed name _ _ _ _ freed.1 owned.output_served;
      }

  -- Whatever is attached and detached, in whatever order and with whatever success, a port that has an
  -- owner has a callback, in either direction, if it was so before.
  pub call_peripherals-IsOwned :
      (calls : List (PeripheralCall D)) (b : PeripheralBus D)
      → IsOwned b
      → IsOwned (call_peripherals calls b)
  call_peripherals-IsOwned [] b owned = owned
  call_peripherals-IsOwned (call ∷ calls) b owned =
      call_peripherals-IsOwned calls (call_peripheral call b) (call-IsOwned call b owned)
