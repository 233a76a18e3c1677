-- ===== src/Machine/Peripherals/Check.antt =====
-- The validating loops of `Attach` (machine/peripheral.go): when they find no error.
use Prim.Native.String.{String}
use text.Mathlib.TextEquality.{eq_iff}
use retronet.Base.{
  ℕ, ◌≡◌, ◌≢◌, ◌↔◌, refl, arith, Bool, true, false, not, List, [], ◌∷◌, Option, none, some,
  Bool-cases, inl, inr, if◌then◌else◌,
}
use retronet.Cpu.Errors.{Error}
use retronet.Cpu.Bus.{update}
use retronet.Machine.Peripherals.{
  IoDirection, PeripheralError, PortHandler, is_empty, has, owner_of, check_ports,
}

abbrev pub All : {A : Type 0} → (A → Type 0) → List A → Type 0
All P [] = Unit {0}
All P (x ∷ xs) = P x × All P xs

-- the tests of one round, by their values
round_iff :
    (v : Option Error) (handled seen_before unused : Bool) (bad : Error → PeripheralError)
    (nil_error twice in_use : PeripheralError) (rest : Option PeripheralError)
    → v ≡ none
    → ((elim v as (λ _. Option PeripheralError) [
      | some e ↦ some (bad e)
      | none ↦
          (if not handled
            then some nil_error
            else if seen_before
            then some twice
            else if not unused
            then some in_use
            else rest)
    ])
        ≡ none)
      ↔ ((handled ≡ true) × (seen_before ≡ false) × (unused ≡ true) × (rest ≡ none))
round_iff none handled seen_before unused bad nil_error twice in_use rest e = ground arith
round_iff (some x) handled seen_before unused bad nil_error twice in_use rest e = absurd (cc)

module _ {H : Type 0} where
  -- No two entries have one port.
  abbrev pub HasDistinctPorts : List (PortHandler H) → Type 0
  HasDistinctPorts [] = Unit {0}
  HasDistinctPorts (x ∷ xs) = All (λ y. y.port ≢ x.port) xs × HasDistinctPorts xs

  -- An entry with a handler, for a port that nothing uses.
  pub record IsFree (owners : ℕ → String) (callbacks : ℕ → Option H) (x : PortHandler H)
      : Type 0 where
    pub handled : has x.handler ≡ true
    pub unowned : owners x.port ≡ ""
    pub uncalled : callbacks x.port ≡ none

  owner_of-unused :
      (owners : ℕ → String) (callbacks : ℕ → Option H) (port : ℕ)
      → (is_empty (owner_of owners callbacks port) ≡ true)
        ↔ ((owners port ≡ "") × (callbacks port ≡ none))
  unfolding owner_of
  owner_of-unused owners callbacks port = elim (Bool-cases (is_empty (owners port))) [
    | inl e ↦ rw e (unused_by (owners port) (callbacks port) ((eq_iff _ _).0 e))
    | inr e ↦ rw e ((λ h. absurd (cc h)), λ h. absurd (cc ((eq_iff (owners port) "").1 h.0)))
  ]
    where
      unused_by :
          (owner : String) (callback : Option H)
          → owner ≡ ""
          → (is_empty (if has callback then "callback-esterno" else "") ≡ true)
            ↔ ((owner ≡ "") × (callback ≡ none))
      unused_by owner none h = ((λ _. (h, refl)), λ _. refl)
      unused_by owner (some f) h = ((λ k. absurd (cc k)), λ k. absurd (cc (k.1)))

  -- A port is not among those seen with another one exactly when it is neither.
  unseen-update_iff :
      (seen : ℕ → Bool) (port : ℕ) (xs : List (PortHandler H))
      → All (λ x. update seen port true x.port ≡ false) xs
        ↔ (All (λ x. x.port ≢ port) xs × All (λ x. seen x.port ≡ false) xs)
  unseen-update_iff seen port [] = ((λ _. (tt, tt)), λ _. tt)
  unseen-update_iff seen port (x ∷ xs) =
      let ih = unseen-update_iff seen port xs in
      (
        (λ h.
            let r = ih.0 h.1 in
            let here : (x.port ≢ port) × (seen x.port ≡ false) = ground arith in
            ((here.0, r.0), (here.1, r.1))),
        λ h. (ground arith, ih.1 (h.0.1, h.1.1)),
      )

module _ {H : Type 0} (validate : ℕ → Option Error) (valid : (port : ℕ) → validate port ≡ none)
    (direction : IoDirection) (name : String) (owners : ℕ → String) (callbacks : ℕ → Option H) where
  check_by_seen :
      (seen : ℕ → Bool) (xs : List (PortHandler H))
      → (check_ports validate direction name owners callbacks seen xs ≡ none) ↔ (
          All (IsFree owners callbacks) xs
          × All (λ x. seen x.port ≡ false) xs
          × HasDistinctPorts xs)
  unfolding check_ports
  check_by_seen seen [] = ((λ _. (tt, tt, tt)), λ _. refl)
  check_by_seen seen (x ∷ xs) =
      let ih = check_by_seen (update seen x.port true) xs in
      let split = unseen-update_iff seen x.port xs in
      let unused = owner_of-unused owners callbacks x.port in
      let round =
        round_iff (validate x.port) (has x.handler) (seen x.port)
          (is_empty (owner_of owners callbacks x.port)) PeripheralError.of_cpu
          (PeripheralError.nil_callback name direction x.port)
          (PeripheralError.duplicate_port name direction x.port)
          (PeripheralError.port_in_use direction x.port (owner_of owners callbacks x.port))
          (check_ports validate direction name owners callbacks (update seen x.port true) xs)
          (valid x.port) in
      (
        (λ h.
            let r = round.0 h in
            let later = ih.0 r.3 in
            let apart = split.0 later.1 in
            let free = unused.0 r.2 in
            (
              (record { handled = r.0; unowned = free.0; uncalled = free.1 }, later.0),
              (r.1, apart.1),
              (apart.0, later.2),
            )),
        λ h. round.1 (
          h.0.0.handled,
          h.1.0,
          unused.1 (h.0.0.unowned, h.0.0.uncalled),
          ih.1 (h.0.1, split.1 (h.2.0, h.1.1), h.2.1),
        ),
      )

  unseen : (xs : List (PortHandler H)) → All (λ x. ◌≡◌ {A = Bool} false false) xs
  unseen [] = tt
  unseen (x ∷ xs) = (refl, unseen xs)

  -- A loop of `Attach` finds no error exactly when every entry has a handler and a free port of its own.
  pub check_ports-none_iff :
      (xs : List (PortHandler H))
      → (check_ports validate direction name owners callbacks (λ _. false) xs ≡ none)
        ↔ (All (IsFree owners callbacks) xs × HasDistinctPorts xs)
  check_ports-none_iff xs =
      let whole = check_by_seen (λ _. false) xs in
      ((λ h. let r = whole.0 h in (r.0, r.2)), λ h. whole.1 (h.0, unseen xs, h.1))
