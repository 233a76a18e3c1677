-- ===== src/Machine/Peripherals/Detach.antt =====
-- `Detach` (machine/peripheral.go): what it frees, and the invariant of the owners.
use Prim.Native.String.{String}
use text.Mathlib.Text.{◌==◌ as str_eq}
use text.Mathlib.TextEquality.{eq_iff}
use retronet.Base.{
  ℕ, zero, suc, ◌+◌, ◌<◌, ◌≡◌, ◌↔◌, arith, Bool, true, false, ◌&&◌, Option, none, some, Bool-cases,
  ◌⊎◌, inl, inr, ◌==◌, ltb, leb, if◌then◌else◌,
}
use retronet.Machine.Peripherals.{
  PeripheralError, PeripheralBus, Side, free_port, free_ports, detach, input_side, output_side,
}

-- A port is freed when the loop passes it and its owner has the name.
abbrev pub is_freed : String → ℕ → ℕ → (ℕ → String) → ℕ → Bool
is_freed name left port owners j = leb port j && (ltb j (port + left) && str_eq (owners j) name)

module _ {H : Type 0} where
  free_ports_lem :
      (name : String) (left port : ℕ) (s : Side H) (j : ℕ)
      → ((free_ports name left port s).owners j
          ≡ (if is_freed name left port s.owners j then "" else s.owners j))
        × ((free_ports name left port s).callbacks j
            ≡ (if is_freed name left port s.owners j then none else s.callbacks j))
  unfolding free_ports
  free_ports_lem name zero port s j = ground arith
  free_ports_lem name (suc left) port s j =
      ground (arith, free_ports_lem name left (port + 1) (free_port name port s) j)

  -- The loop finds a port exactly when one that it passes has the name.
  free_ports-found :
      (name : String) (left port : ℕ) (s : Side H)
      → (free_ports name left port s).found ≡ true
      → (s.found ≡ true) ⊎ ((j : ℕ) × (leb port j ≡ true) × (j < port + left) × (s.owners j ≡ name))
  unfolding free_ports
  free_ports-found name zero port s h = inl h
  free_ports-found name (suc left) port s h =
      elim (free_ports-found name left (port + 1) (free_port name port s) h) [
        | inl e ↦ elim (Bool-cases (str_eq (s.owners port) name)) [
          | inl same ↦ inr (port, ground arith, omega arith, (eq_iff _ _).0 same)
          | inr differ ↦ inl (rw differ at e)
        ]
        | inr (j, above, below, named) ↦ inr (j, ground arith, omega arith, ground arith)
      ]

  still_found :
      (name : String) (left port : ℕ) (s : Side H)
      → s.found ≡ true
      → (free_ports name left port s).found ≡ true
  unfolding free_ports
  still_found name zero port s h = h
  still_found name (suc left) port s h =
      still_found name left (port + 1) (free_port name port s) (ground arith)

  found-free_ports :
      (name : String) (left port : ℕ) (s : Side H) (j : ℕ)
      → leb port j ≡ true
      → j < port + left
      → s.owners j ≡ name
      → (free_ports name left port s).found ≡ true
  unfolding free_ports
  found-free_ports name zero port s j above below named = absurd (ground arith)
  found-free_ports name (suc left) port s j above below named = elim (Bool-cases (j == port)) [
    | inl e ↦
        still_found name left (port + 1) (free_port name port s)
          (ground (arith, eq_iff (s.owners port) name))
    | inr e ↦
        found-free_ports name left (port + 1) (free_port name port s) j (ground arith) (omega arith)
          (ground arith)
  ]

abbrev side_of : {H : Type 0} → Bool → (ℕ → String) → (ℕ → Option H) → Side H
side_of found owners callbacks = record { found = found; owners = owners; callbacks = callbacks }

-- What the ports of a side are after `Detach` of a name; there are 256 of them.
pub record HasFreed {H : Type 0} (name : String) (owners next_owners : ℕ → String)
    (callbacks next_callbacks : ℕ → Option H) : Type 0 where
  pub owner :
      (port : ℕ)
      → next_owners port ≡ (if ltb port 256 && str_eq (owners port) name then "" else owners port)
  pub callback :
      (port : ℕ)
      → next_callbacks port
        ≡ (if ltb port 256 && str_eq (owners port) name then none else callbacks port)

-- A port of one direction or the other that has the owner.
abbrev pub Owns : {D : Type 0} → String → PeripheralBus D → Type 0
Owns name b =
    (port : ℕ) × (port < 256) × ((b.input_owners port ≡ name) ⊎ (b.output_owners port ≡ name))

module _ {D : Type 0} (name : String) (b : PeripheralBus D) where
  input-Freed :
      HasFreed name b.input_owners
        (input_side name b).owners
        b.io.input_callbacks
        (input_side name b).callbacks
  input-Freed =
      let s = side_of false b.input_owners b.io.input_callbacks in
      record {
        owner = λ port. ground (arith, free_ports_lem name 256 0 s port);
        callback = λ port. ground (arith, free_ports_lem name 256 0 s port);
      }

  output-Freed :
      (found : Bool)
      → HasFreed name b.output_owners
          (output_side found name b).owners
          b.io.output_callbacks
          (output_side found name b).callbacks
  output-Freed found =
      let s = side_of found b.output_owners b.io.output_callbacks in
      record {
        owner = λ port. ground (arith, free_ports_lem name 256 0 s port);
        callback = λ port. ground (arith, free_ports_lem name 256 0 s port);
      }

  found_iff : ((output_side (input_side name b).found name b).found ≡ true) ↔ Owns name b
  found_iff =
      let inputs = input_side name b in
      let s = side_of false b.input_owners b.io.input_callbacks in
      let t = side_of inputs.found b.output_owners b.io.output_callbacks in
      (
        (λ h. elim (free_ports-found name 256 0 t h) [
          | inr (j, above, below, named) ↦ (j, omega arith, inr named)
          | inl e ↦ elim (free_ports-found name 256 0 s e) [
            | inr (j, above, below, named) ↦ (j, omega arith, inl named)
            | inl f ↦ absurd (cc f)
          ]
        ]),
        λ (j, below, where_owned). elim where_owned [
          | inl named ↦
              still_found name 256 0 t
                (found-free_ports name 256 0 s j (ground arith) (omega arith) named)
          | inr named ↦ found-free_ports name 256 0 t j (ground arith) (omega arith) named
        ],
      )

  -- `Detach` frees exactly the ports of the name, in both directions: they lose their owner and their
  -- callback, and the other ports keep both. It reports an error exactly when no port has the name.
  pub detach-HasFreed :
      HasFreed name b.input_owners
        (detach name b).1.input_owners
        b.io.input_callbacks
        (detach name b).1.io.input_callbacks
      × HasFreed name b.output_owners
          (detach name b).1.output_owners
          b.io.output_callbacks
          (detach name b).1.io.output_callbacks
      × (((detach name b).0 ≡ none) ↔ Owns name b)
  unfolding detach
  detach-HasFreed = (input-Freed, output-Freed (input_side name b).found, reported)
    where
      none_iff :
          (found : Bool) (e : PeripheralError)
          → ((if found then none else some e) ≡ none) ↔ (found ≡ true)
      none_iff found e = ground arith

      outputs : Bool
      outputs = (output_side (input_side name b).found name b).found

      reported : ((detach name b).0 ≡ none) ↔ Owns name b
      reported =
          let r = none_iff outputs (PeripheralError.not_found name) in
          ((λ h. found_iff.0 (r.0 h)), λ h. r.1 (found_iff.1 h))
