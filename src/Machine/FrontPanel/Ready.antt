-- ===== src/Machine/FrontPanel/Ready.antt =====
-- `FrontPanel.Step` (machine/frontpanel.go) under READY and interrupts, against the processor's own
-- `Step` and `Jam`.
use retronet.Base.{
  ℕ, zero, suc, ◌+◌, ◌-◌, ◌<◌, ◌≡◌, refl, arith, Bool, true, false, not, if◌then◌else◌, Option,
  none, some, ◌∙◌, ap, ap₂, take,
}
use retronet.Cpu.Errors.{Error, Result, ok, err, panicked}
use retronet.Cpu.Alu.{I8080}
use retronet.Cpu.Bus.{Memory, Io}
use retronet.Cpu.Decoder.{decode}
use retronet.Cpu.Core.{System}
use retronet.Cpu.Step.{step, jam, is_stopped, record_wait_state}
use retronet.Machine.FrontPanel.{
  FrontPanel, PanelError, InterruptRequest, to_error, clear_cycle_state,
}
use retronet.Machine.FrontPanel.Cycles.{
  context_of, is_ready, wait, pass_cycles, prepare_cycles, execute_cycles, step_panel,
}

module _ {M P : Type 0} where
  -- READY is high and no callback decides on it.
  pub record IsFree (p : FrontPanel M P) : Type 0 where
    pub no_callback : p.ready_callback ≡ none
    pub ready_high : p.ready ≡ true

  ready-IsFree : (p : FrontPanel M P) → IsFree p → is_ready p ≡ true
  unfolding is_ready
  ready-IsFree p h = rw h.no_callback h.ready_high

  pass_cycles_free : (left : ℕ) (p : FrontPanel M P) → IsFree p → (pass_cycles left p).0 ≡ true
  unfolding pass_cycles
  pass_cycles_free zero p h = refl
  pass_cycles_free (suc left) p h = rw (ready-IsFree p h) (
      pass_cycles_free left (record p { cycle_index = p.cycle_index + 1 })
        (record { no_callback = h.no_callback; ready_high = h.ready_high }))

  -- Passing the cycles changes the index alone.
  pass_cycles_index :
      (left : ℕ) (p : FrontPanel M P)
      → IsFree p
      → (n : ℕ) × ((pass_cycles left p).1 ≡ record p { cycle_index = n })
  unfolding pass_cycles
  pass_cycles_index zero p h = (p.cycle_index, refl)
  pass_cycles_index (suc left) p h = rw (ready-IsFree p h) (
      pass_cycles_index left (record p { cycle_index = p.cycle_index + 1 })
        (record { no_callback = h.no_callback; ready_high = h.ready_high }))

  passed :
      (left : ℕ) (p : FrontPanel M P)
      → IsFree p
      → (n : ℕ) × (pass_cycles left p ≡ (true, record p { cycle_index = n }))
  passed left p h =
      let (n, e) = pass_cycles_index left p h in
      (n, ap₂ (λ x y. (x, y)) (pass_cycles_free left p h) e)

  -- No instruction is under way.
  pub record IsIdle (p : FrontPanel M P) : Type 0 where
    pub inactive : p.cycle_active ≡ false
    pub no_interrupt : p.active_interrupt ≡ false

pub not_taken : {A : Type 0} (b : Bool) (x y : A) → b ≡ false → (if b then x else y) ≡ y
not_taken b x y h = rw h refl

module _ {M P : Type 0} where
  pub first_cycle :
      (left : ℕ) (p : FrontPanel M P)
      → 0 < left
      → is_ready p ≡ false
      → pass_cycles left p ≡ (
        false,
        record p {
          wait_cycle = context_of p;
          waiting = true;
          system = record p.system { cpu = record_wait_state p.system.cpu };
        },
      )
  unfolding pass_cycles wait
  first_cycle zero p h low = absurd (omega arith)
  first_cycle (suc left) p h low = not_taken (is_ready p) _ _ low

-- What is left of a request behind its instruction: it stays when the instruction failed.
abbrev pub left_pending : Option PanelError → Option InterruptRequest → Option InterruptRequest
left_pending none request = none
left_pending (some e) request = request

module _ {M P : Type 0} ⦃memory : Memory M⦄ where
  -- `prepareCycles` with the values that it tests taken out
  abbrev pub prepare_by :
      FrontPanel M P
      → Bool
      → Option InterruptRequest
      → Bool
      → Bool
      → Option M
      → Option PanelError × FrontPanel M P
  prepare_by p active pending interrupt stopped mem = if active then (none, p) else elim pending [
    | some request ↦ (
      none,
      record p {
        active_request = request;
        active_opcode = decode request.code;
        active_interrupt = true;
        cycle_active = true;
        cycle_index = 0;
      },
    )
    | none ↦
        (if interrupt
          then (none, record p { cycle_active = true; cycle_index = 0 })
          else if stopped
          then (some (PanelError.of_cpu Error.cpu_stopped), p)
          else elim mem [
            | none ↦ (some PanelError.panic, p)
            | some m ↦ (
              none,
              record p {
                active_opcode = decode (memory.read m p.system.cpu.pc);
                cycle_active = true;
                cycle_index = 0;
              },
            )
          ])
  ]

  pub prepare_by_along :
      (p : FrontPanel M P) (a b c d c2 d2 : Bool) (q r : Option InterruptRequest) (m n : Option M)
      → a ≡ b
      → q ≡ r
      → c ≡ c2
      → d ≡ d2
      → m ≡ n
      → prepare_by p a q c d m ≡ prepare_by p b r c2 d2 n
  prepare_by_along p a b c d c2 d2 q r m n e f g h k =
      ap (λ x. prepare_by p x q c d m) e
      ∙ ap (λ x. prepare_by p b x c d m) f
      ∙ ap (λ x. prepare_by p b r x d m) g
      ∙ ap (λ x. prepare_by p b r c2 x m) h
      ∙ ap (λ x. prepare_by p b r c2 d2 x) k

  pub prepare_cycles_lem :
      (p : FrontPanel M P)
      → prepare_cycles p
        ≡ prepare_by p p.cycle_active p.pending_interrupt p.active_interrupt
            (is_stopped p.system.cpu)
            p.system.mem
  unfolding prepare_cycles
  prepare_cycles_lem p = refl

module _ {M P : Type 0} ⦃i8080 : I8080⦄ ⦃memory : Memory M⦄ ⦃ports : Io P⦄ where
  -- the end of `Step`, from what the cycles and the preparation return
  abbrev pub end_by : Bool × FrontPanel M P → Option PanelError × FrontPanel M P
  end_by x = if x.0 then execute_cycles x.1 else (some PanelError.cpu_waiting, x.1)

  abbrev pub step_by : Option PanelError × FrontPanel M P → Option PanelError × FrontPanel M P
  step_by x = elim x.0 [
    | some e ↦ (some e, x.1)
    | none ↦ end_by (pass_cycles (x.1.active_opcode.cycle_count - x.1.cycle_index) x.1)
  ]

  pub step_panel_lem : (p : FrontPanel M P) → step_panel p ≡ step_by (prepare_cycles p)
  unfolding step_panel
  step_panel_lem p = refl

  pub after_cycles :
      (p q : FrontPanel M P)
      → prepare_cycles p ≡ (none, q)
      → IsFree q
      → (n : ℕ) × (step_panel p ≡ execute_cycles (record q { cycle_index = n }))
  after_cycles p q e free =
      let (n, f) = passed (q.active_opcode.cycle_count - q.cycle_index) q free in
      (n, step_panel_lem p ∙ ap step_by e ∙ ap end_by f)

  -- the end of `Step` for a request
  abbrev answered :
      FrontPanel M P → Result (Unit {0}) × System M P → Option PanelError × FrontPanel M P
  answered p x = (
    to_error x.0,
    record (clear_cycle_state p) {
      system = x.1;
      pending_interrupt = left_pending (to_error x.0) p.pending_interrupt;
    },
  )

  execute_by :
      (p : FrontPanel M P) (x : Result (Unit {0}) × System M P)
      → (elim (to_error x.0) as (λ _. Option PanelError × FrontPanel M P) [
        | some e ↦ (some e, record (clear_cycle_state p) { system = x.1 })
        | none ↦ (none, record (clear_cycle_state p) { system = x.1; pending_interrupt = none })
      ])
        ≡ answered p x
  unfolding clear_cycle_state
  execute_by p (ok tt, t) = refl
  execute_by p (err e, t) = refl
  execute_by p (panicked, t) = refl

  -- the end of `Step` by the kind of instruction
  abbrev pub finish_by : FrontPanel M P → Bool → Option PanelError × FrontPanel M P
  finish_by p interrupt =
      if not interrupt
      then (to_error (step p.system).0, record (clear_cycle_state p) { system = (step p.system).1 })
      else (let x =
            jam p.active_request.code
              (take p.active_request.operand_count p.active_request.operands) p.system in
          elim (to_error x.0) [
            | some e ↦ (some e, record (clear_cycle_state p) { system = x.1 })
            | none ↦ (none, record (clear_cycle_state p) { system = x.1; pending_interrupt = none })
          ])

  pub execute_cycles_lem : (p : FrontPanel M P) → execute_cycles p ≡ finish_by p p.active_interrupt
  unfolding execute_cycles
  execute_cycles_lem p = refl

  -- `Step` of an idle panel with READY high, no callback and no interrupt, over a running processor, is
  -- the processor's `Step`: the same error, processor, memory and I/O bus, and no cycle under way.
  pub step_panel-step :
      (p : FrontPanel M P) (m : M)
      → IsIdle p
      → IsFree p
      → p.pending_interrupt ≡ none
      → is_stopped p.system.cpu ≡ false
      → p.system.mem ≡ some m
      → step_panel p
        ≡ (to_error (step p.system).0, record (clear_cycle_state p) { system = (step p.system).1 })
  unfolding clear_cycle_state
  step_panel-step p m idle free quiet running present =
      let prepared =
        prepare_cycles_lem p
        ∙ prepare_by_along p _ _ _ _ _ _ _ _ _ _ idle.inactive quiet idle.no_interrupt running
            present in
      let q = (prepare_by p false none false false (some m)).1 in
      let (n, e) =
        after_cycles p q prepared
          (record { no_callback = free.no_callback; ready_high = free.ready_high }) in
      let r = record q { cycle_index = n } in
      e ∙ execute_cycles_lem r ∙ ap (finish_by r) idle.no_interrupt

  -- `Step` of an idle panel with READY high, no callback and a pending interrupt is the processor's `Jam`
  -- of the requested opcode and operands, whether the processor is stopped or not; the request is
  -- answered when that succeeds, and stays pending when it fails.
  pub step_panel-jam :
      (p : FrontPanel M P) (request : InterruptRequest)
      → IsIdle p
      → IsFree p
      → p.pending_interrupt ≡ some request
      → let x = jam request.code (take request.operand_count request.operands) p.system in
        step_panel p ≡ (
          to_error x.0,
          record (clear_cycle_state p) {
            system = x.1;
            pending_interrupt = left_pending (to_error x.0) p.pending_interrupt;
          },
        )
  unfolding clear_cycle_state
  step_panel-jam p request idle free pending =
      let prepared =
        prepare_cycles_lem p
        ∙ prepare_by_along p _ _ _ _ _ _ _ _ _ _ idle.inactive pending refl refl refl in
      let q =
        (prepare_by p false (some request) p.active_interrupt (is_stopped p.system.cpu)
          p.system.mem).1 in
      let (n, e) =
        after_cycles p q prepared
          (record { no_callback = free.no_callback; ready_high = free.ready_high }) in
      e
      ∙ execute_cycles_lem (record q { cycle_index = n })
      ∙ execute_by p (jam request.code (take request.operand_count request.operands) p.system)
