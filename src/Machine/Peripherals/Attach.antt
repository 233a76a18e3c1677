-- ===== src/Machine/Peripherals/Attach.antt =====
-- `Attach` (machine/peripheral.go): when it succeeds, and what it then changes.
use Prim.Native.String.{String}
use text.Mathlib.TextEquality.{eq_iff}
use retronet.Base.{
  ℕ, ◌≡◌, ◌≢◌, ◌↔◌, refl, arith, Bool, true, false, List, [], ◌∷◌, Option, none, some, Bool-cases,
  ◌⊎◌, inl, inr, ◌==◌, if◌then◌else◌, sym, subst,
}
use retronet.Cpu.Bus.{update, validate_input_port, validate_output_port}
use retronet.Machine.Peripherals.{
  PeripheralError, PortHandler, PeripheralBinding, PeripheralBus, is_empty, has, check_ports,
  check_binding, assign, assign_callbacks, assign_owners, attach, IoDirection,
}
use retronet.Machine.Peripherals.Check.{All, IsFree, HasDistinctPorts, check_ports-none_iff}

-- A binding that the bus can take: it has a name, and its ports are distinct and unused, on each side.
pub record IsAcceptable {D : Type 0} (binding : PeripheralBinding D) (b : PeripheralBus D)
    : Type 0 where
  pub named : binding.name ≢ ""
  pub free_inputs : All (IsFree b.input_owners b.io.input_callbacks) binding.inputs
  pub distinct_inputs : HasDistinctPorts binding.inputs
  pub free_outputs : All (IsFree b.output_owners b.io.output_callbacks) binding.outputs
  pub distinct_outputs : HasDistinctPorts binding.outputs

abbrev pub or_else : {A : Type 0} → Option A → A → A
or_else none a = a
or_else (some b) a = b

module _ {H : Type 0} where
  -- The entry of a port, if there is one.
  abbrev pub entry : List (PortHandler H) → ℕ → Option (Option H)
  entry [] port = none
  entry (x ∷ xs) port = if port == x.port then some x.handler else entry xs port

  entry_absent :
      (xs : List (PortHandler H)) (port : ℕ) → All (λ x. x.port ≢ port) xs → entry xs port ≡ none
  entry_absent [] port h = refl
  entry_absent (x ∷ xs) port h = ground (arith, entry_absent xs port h.1)

  entry_later :
      (x : PortHandler H) (xs : List (PortHandler H)) (port : ℕ)
      → All (λ y. y.port ≢ x.port) xs
      → port ≡ x.port
      → entry xs port ≡ none
  entry_later x xs port d e = entry_absent xs port (subst (λ p. All (λ y. y.port ≢ p) xs) (sym e) d)

  assign_callbacks-entry :
      (xs : List (PortHandler H)) (callbacks : ℕ → Option H) (port : ℕ)
      → HasDistinctPorts xs
      → assign_callbacks xs callbacks port ≡ or_else (entry xs port) (callbacks port)
  unfolding assign_callbacks
  assign_callbacks-entry [] callbacks port d = refl
  assign_callbacks-entry (x ∷ xs) callbacks port d = ground (
    arith,
    assign_callbacks-entry xs (update callbacks x.port x.handler) port d.1,
    entry_later x xs port d.0,
  )

  assign_owners-entry :
      (name : String) (xs : List (PortHandler H)) (owners : ℕ → String) (port : ℕ)
      → assign_owners name xs owners port ≡ (if has (entry xs port) then name else owners port)
  unfolding assign_owners
  assign_owners-entry name [] owners port = refl
  assign_owners-entry name (x ∷ xs) owners port =
      ground (arith, assign_owners-entry name xs (update owners x.port name) port)

-- What a port of a side is after `Attach` of the entries `xs`.
pub record HasTaken {H : Type 0} (name : String) (xs : List (PortHandler H))
    (owners next_owners : ℕ → String) (callbacks next_callbacks : ℕ → Option H) : Type 0 where
  pub callback : (port : ℕ) → next_callbacks port ≡ or_else (entry xs port) (callbacks port)
  pub owner : (port : ℕ) → next_owners port ≡ (if has (entry xs port) then name else owners port)

module _ {D : Type 0} (binding : PeripheralBinding D) (b : PeripheralBus D) where
  check_binding_iff : (check_binding binding b ≡ none) ↔ (
      All (IsFree b.input_owners b.io.input_callbacks) binding.inputs
      × HasDistinctPorts binding.inputs
      × All (IsFree b.output_owners b.io.output_callbacks) binding.outputs
      × HasDistinctPorts binding.outputs)
  unfolding validate_input_port validate_output_port
  check_binding_iff =
      both
        (check_ports validate_input_port IoDirection.input binding.name b.input_owners
          b.io.input_callbacks (λ _. false) binding.inputs)
        (check_ports validate_output_port IoDirection.output binding.name b.output_owners
          b.io.output_callbacks (λ _. false) binding.outputs)
        (check_ports-none_iff validate_input_port (λ _. refl) IoDirection.input binding.name
          b.input_owners b.io.input_callbacks binding.inputs)
        (check_ports-none_iff validate_output_port (λ _. refl) IoDirection.output binding.name
          b.output_owners b.io.output_callbacks binding.outputs)
    where
      both :
          {A B C E : Type 0} (x y : Option PeripheralError)
          → (x ≡ none) ↔ (A × B)
          → (y ≡ none) ↔ (C × E)
          → (elim x as (λ _. Option PeripheralError) [ some e ↦ some e | none ↦ y ] ≡ none)
            ↔ (A × B × C × E)
      both none y p q =
          let here = p.0 refl in
          ((λ h. let r = q.0 h in (here.0, here.1, r.0, r.1)), λ h. q.1 (h.2, h.3))
      both (some e) y p q = ((λ h. absurd (cc h)), λ h. absurd (cc (p.1 (h.0, h.1))))

  attach_by :
      (named : Bool) (e : Option PeripheralError)
      → let x =
          (if named
            then (some PeripheralError.name_required, b)
            else elim e as (λ _. Option PeripheralError × PeripheralBus D) [
              | some f ↦ (some f, b)
              | none ↦ (none, assign binding b)
            ]) in
        ((x.0 ≡ none) ↔ ((named ≡ false) × (e ≡ none)))
        × ((x.0 ≡ none) ⊎ (x.1 ≡ b))
        × ((x.0 ≡ none) → x.1 ≡ assign binding b)
  attach_by true e = (((λ h. absurd (cc h)), λ h. absurd (cc (h.0))), inr refl, λ h. absurd (cc h))
  attach_by false none = (((λ _. (refl, refl)), λ _. refl), inl refl, λ _. refl)
  attach_by false (some f) =
      (((λ h. absurd (cc h)), λ h. absurd (cc (h.1))), inr refl, λ h. absurd (cc h))

  -- `Attach` succeeds exactly when the binding has a name and each of its ports has a handler, is
  -- bound once in its direction, and has no owner and no callback yet; otherwise the bus is as it was.
  pub attach-IsAcceptable :
      (((attach binding b).0 ≡ none) ↔ IsAcceptable binding b)
      × (((attach binding b).0 ≡ none) ⊎ ((attach binding b).1 ≡ b))
  unfolding attach
  attach-IsAcceptable =
      let r = attach_by (is_empty binding.name) (check_binding binding b) in
      (
        (
          (λ h.
              let s = r.0.0 h in
              let t = check_binding_iff.0 s.1 in
              record {
                named = λ e. cc (s.0, (eq_iff binding.name "").1 e);
                free_inputs = t.0;
                distinct_inputs = t.1;
                free_outputs = t.2;
                distinct_outputs = t.3;
              }),
          λ a. r.0.1 (
            not-empty binding.name a.named,
            check_binding_iff.1
                (a.free_inputs, a.distinct_inputs, a.free_outputs, a.distinct_outputs),
          ),
        ),
        r.1,
      )
    where
      not-empty : (s : String) → s ≢ "" → is_empty s ≡ false
      not-empty s h = elim (Bool-cases (is_empty s)) [
        | inl e ↦ absurd (h ((eq_iff s "").0 e))
        | inr e ↦ e
      ]

  pub attach-assign : (attach binding b).0 ≡ none → (attach binding b).1 ≡ assign binding b
  unfolding attach
  attach-assign = (attach_by (is_empty binding.name) (check_binding binding b)).2

  pub assign-HasTaken :
      IsAcceptable binding b
      → HasTaken binding.name binding.inputs b.input_owners
          (assign binding b).input_owners
          b.io.input_callbacks
          (assign binding b).io.input_callbacks
        × HasTaken binding.name binding.outputs b.output_owners
            (assign binding b).output_owners
            b.io.output_callbacks
            (assign binding b).io.output_callbacks
  assign-HasTaken a = (
    record {
      callback =
          λ port. assign_callbacks-entry binding.inputs b.io.input_callbacks port a.distinct_inputs;
      owner = λ port. assign_owners-entry binding.name binding.inputs b.input_owners port;
    },
    record {
      callback = λ port.
          assign_callbacks-entry binding.outputs b.io.output_callbacks port a.distinct_outputs;
      owner = λ port. assign_owners-entry binding.name binding.outputs b.output_owners port;
    },
  )

  -- When `Attach` succeeds, every port of the binding has its handler as callback and its name as owner,
  -- and every other port, in either direction, has the callback and the owner it had.
  pub attach-HasTaken :
      (attach binding b).0 ≡ none
      → HasTaken binding.name binding.inputs b.input_owners
          (attach binding b).1.input_owners
          b.io.input_callbacks
          (attach binding b).1.io.input_callbacks
        × HasTaken binding.name binding.outputs b.output_owners
            (attach binding b).1.output_owners
            b.io.output_callbacks
            (attach binding b).1.io.output_callbacks
  attach-HasTaken h =
      subst
        (λ (c : PeripheralBus D).
          HasTaken binding.name binding.inputs b.input_owners c.input_owners b.io.input_callbacks
            c.io.input_callbacks
          × HasTaken binding.name binding.outputs b.output_owners c.output_owners
              b.io.output_callbacks c.io.output_callbacks)
        (sym (attach-assign h)) (assign-HasTaken (attach-IsAcceptable.0.0 h))
