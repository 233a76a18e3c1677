-- ===== src/Machine/Peripherals/Owners.antt =====
-- `Attach` and `Detach` (machine/peripheral.go) against one another, and a flaw of the empty name.
use Prim.Native.String.{String}
use text.Mathlib.TextEquality.{eq_iff}
use mathlib.Core.Path.{fun_ext}
use retronet.Base.{
  ℕ, ◌<◌, ◌≡◌, ◌≢◌, refl, arith, true, List, [], ◌∷◌, Option, none, some, Bool-cases, inl, inr,
  ==_iff, ◌==◌, ◌∙◌, sym, subst,
}
use retronet.Machine.Peripherals.{
  PortHandler, PeripheralBinding, PeripheralBus, has, owner_of, assign, attach, detach,
}
use retronet.Machine.Callbacks.{InputCallback, OutputCallback}
use retronet.Machine.Peripherals.Check.{All, IsFree}
use retronet.Machine.Peripherals.Attach.{
  HasTaken, entry, attach-IsAcceptable, attach-assign, assign-HasTaken,
}
use retronet.Machine.Peripherals.Detach.{HasFreed, detach-HasFreed}

-- The ports of the entries are bytes.
abbrev pub HasBytePorts : {H : Type 0} → List (PortHandler H) → Type 0
HasBytePorts xs = All (λ x. x.port < 256) xs

module _ {H : Type 0} (owners : ℕ → String) (callbacks : ℕ → Option H) where
  -- The port of an entry was free, and is a byte.
  entry-IsFree :
      (xs : List (PortHandler H)) (port : ℕ)
      → All (IsFree owners callbacks) xs
      → HasBytePorts xs
      → has (entry xs port) ≡ true
      → (owners port ≡ "") × (callbacks port ≡ none) × (port < 256)
  entry-IsFree [] port free bytes h = absurd (cc h)
  entry-IsFree (x ∷ xs) port free bytes h = elim (Bool-cases (port == x.port)) [
    | inl e ↦
        (let same = (==_iff port x.port).0 e in
          subst (λ p. (owners p ≡ "") × (callbacks p ≡ none) × (p < 256)) (sym same)
            (free.0.unowned, free.0.uncalled, bytes.0))
    | inr e ↦ entry-IsFree xs port free.1 bytes.1 (rw e at h)
  ]

  -- What `Attach` took is what `Detach` frees.
  module _ (name : String) (xs : List (PortHandler H)) (next_owners last_owners : ℕ → String)
      (next_callbacks last_callbacks : ℕ → Option H) (free : All (IsFree owners callbacks) xs)
      (bytes : HasBytePorts xs) (unused : (port : ℕ) → owners port ≢ name)
      (taken : HasTaken name xs owners next_owners callbacks next_callbacks) where
    restored :
        HasFreed name next_owners last_owners next_callbacks last_callbacks
        → (port : ℕ) → (last_owners port ≡ owners port) × (last_callbacks port ≡ callbacks port)
    restored freed port = ground (
      arith,
      freed.owner port,
      freed.callback port,
      taken.owner port,
      taken.callback port,
      entry-IsFree xs port free bytes,
      unused port,
      eq_iff (next_owners port) name,
    )

module _ {D : Type 0} where
  -- Two buses with the same ports and the same rest are equal.
  same_bus :
      (b c : PeripheralBus D)
      → c ≡ record b {
        io = record b.io {
          input_callbacks = c.io.input_callbacks;
          output_callbacks = c.io.output_callbacks;
        };
        input_owners = c.input_owners;
        output_owners = c.output_owners;
      }
      → ((port : ℕ)
          → (c.input_owners port ≡ b.input_owners port)
            × (c.io.input_callbacks port ≡ b.io.input_callbacks port))
      → ((port : ℕ)
          → (c.output_owners port ≡ b.output_owners port)
            × (c.io.output_callbacks port ≡ b.io.output_callbacks port))
      → c ≡ b
  same_bus b c e inputs outputs = e ∙ λ i. record b {
    io = record b.io {
      input_callbacks = fun_ext (λ port. (inputs port).1) i;
      output_callbacks = fun_ext (λ port. (outputs port).1) i;
    };
    input_owners = fun_ext (λ port. (inputs port).0) i;
    output_owners = fun_ext (λ port. (outputs port).0) i;
  }

  detach_rest :
      (name : String) (binding : PeripheralBinding D) (b : PeripheralBus D)
      → let c = (detach name (assign binding b)).1 in
        c ≡ record b {
          io = record b.io {
            input_callbacks = c.io.input_callbacks;
            output_callbacks = c.io.output_callbacks;
          };
          input_owners = c.input_owners;
          output_owners = c.output_owners;
        }
  unfolding detach
  detach_rest name binding b = refl

  -- To attach a peripheral whose name owns no port, and to detach it, gives back the bus, its owners,
  -- its callbacks and its latches.
  pub detach-attach :
      (binding : PeripheralBinding D) (b : PeripheralBus D)
      → (attach binding b).0 ≡ none
      → HasBytePorts binding.inputs
      → HasBytePorts binding.outputs
      → ((port : ℕ) → (b.input_owners port ≢ binding.name) × (b.output_owners port ≢ binding.name))
      → (detach binding.name (attach binding b).1).1 ≡ b
  detach-attach binding b success byte_inputs byte_outputs unused =
      let ok = (attach-IsAcceptable binding b).0.0 success in
      let taken = assign-HasTaken binding b ok in
      let freed = detach-HasFreed binding.name (assign binding b) in
      subst (λ c. (detach binding.name c).1 ≡ b) (sym (attach-assign binding b success))
        (same_bus b (detach binding.name (assign binding b)).1 (detach_rest binding.name binding b)
          (restored b.input_owners b.io.input_callbacks binding.name binding.inputs _ _ _ _
            ok.free_inputs byte_inputs (λ port. (unused port).0) taken.0 freed.0)
          (restored b.output_owners b.io.output_callbacks binding.name binding.outputs _ _ _ _
            ok.free_outputs byte_outputs (λ port. (unused port).1) taken.1 freed.1))

  -- A flaw: on a bus where `OnInput` and `OnOutput` have set the callbacks of an input port and of an
  -- output port that no peripheral owns, `Attach` takes both ports for owned from outside; but `Detach`
  -- of the empty name succeeds, and takes both callbacks.
  pub detach_unnamed :
      (b : PeripheralBus D) (port other : ℕ) (f : InputCallback D) (g : OutputCallback D)
      → port < 256
      → other < 256
      → b.input_owners port ≡ ""
      → b.output_owners other ≡ ""
      → b.io.input_callbacks port ≡ some f
      → b.io.output_callbacks other ≡ some g
      → let (e, c) = detach "" b in
        (owner_of b.input_owners b.io.input_callbacks port ≡ "callback-esterno")
        × (owner_of b.output_owners b.io.output_callbacks other ≡ "callback-esterno")
        × (e ≡ none)
        × (c.io.input_callbacks port ≡ none)
        × (c.io.output_callbacks other ≡ none)
  detach_unnamed b port other f g h k unowned unowned_other called called_other =
      let freed = detach-HasFreed "" b in
      (
        from_outside b.input_owners b.io.input_callbacks port f unowned called,
        from_outside b.output_owners b.io.output_callbacks other g unowned_other called_other,
        freed.2.1 (port, h, inl unowned),
        ground (arith, freed.0.callback port, eq_iff (b.input_owners port) ""),
        ground (arith, freed.1.callback other, eq_iff (b.output_owners other) ""),
      )
    where
      from_outside :
          {H : Type 0} (owners : ℕ → String) (callbacks : ℕ → Option H) (i : ℕ) (x : H)
          → owners i ≡ ""
          → callbacks i ≡ some x
          → owner_of owners callbacks i ≡ "callback-esterno"
      from_outside owners callbacks i x e c = unfold owner_of in rw (e, c) refl
