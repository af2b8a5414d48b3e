-- ===== src/Core/RegisterOps.antt =====
-- The register instructions of OP and OP32 through a whole step.
use m_emu.Base.{
  ℕ, ◌+◌, ◌%◌, ◌^◌, ◌<◌, ◌≡◌, ◌≢◌, refl, ap, ◌∙◌, Bool, true, false, some, arith, ◌==◌,
  if◌then◌else◌, set, get_or,
}
use m_emu.Words.{get_field, get-lt}
use m_emu.Rv64.{Rv64Core}
use m_emu.Rv64.Reset.{gpr_at, set_gpr, set_gpr_lem, GprIsValid}
use m_emu.Mmu.{SysBus}
use m_emu.Mmu.Frame.{IgnoresMmu, vaddr_inst_fetch-Leaves}
use m_emu.Core.Alu.{AluOp, alu_exec}
use m_emu.Core.AluTotal.{alu_exec-some}
use m_emu.Core.Inst
use m_emu.Core.Opcodes.{opcode_op, opcode_op32}
use m_emu.Core.Exec.{Hart, Outcome, pure, checked, gpr}
use m_emu.Core.Compute.{op_decode, op32_decode, op, op32, compute, with_registers}
use m_emu.Core.Step.{is_compressed, retire, dispatch, execute, step}
use m_emu.Core.Equations.{
  at_core, bind-returns, change-returns, checked-returns, gets-returns, pure-returns,
}
use m_emu.Core.StepUnchecked.{IsBlank, IsBlank-Stable, finish-Agree, finish_unchecked}
use m_emu.Core.Runs.{Fetches, run, step-run}

-- The decoders name an operation of the ALU.
op_decode-some : (inst : ℕ) {o : AluOp} → op_decode inst ≡ some o → o ≢ AluOp.alu_nop
unfolding op_decode
op_decode-some inst e n = ground arith

op32_decode-some : (inst : ℕ) {o : AluOp} → op32_decode inst ≡ some o → o ≢ AluOp.alu_nop
unfolding op32_decode
op32_decode-some inst e n = ground arith

-- A register index below 32 is written.
set_gpr-returns : (i v : ℕ) (s : Rv64Core) → i < 32 → (u : Rv64Core) × (set_gpr i v s ≡ some u)
unfolding set_gpr
set_gpr-returns i v s h = (if i == 0 then s else record s { gpr = set s.gpr i v }, ground arith)

module _ {S : Type 0} where
  with_registers-returns :
      (inst : ℕ) (op_32 : Bool) (o : AluOp) (h : Hart S) (r : ℕ) (u : Rv64Core)
      → alu_exec
          (gpr_at h.core (get_field Inst.rs1 inst))
          (gpr_at h.core (get_field Inst.rs2 inst))
          o
          op_32
        ≡ some r
      → set_gpr (get_field Inst.rd inst) r h.core ≡ some u
      → with_registers inst op_32 (some o) h ≡ some (at_core u h, Outcome.sequential)
  unfolding compute
  with_registers-returns inst op_32 o h r u e w =
      bind-returns (gpr (get_field Inst.rs1 inst)) _ h h _ (gets-returns _ h)
      ∙ bind-returns (gpr (get_field Inst.rs2 inst)) _ h h _ (gets-returns _ h)
      ∙ bind-returns _ _ h (at_core u h) tt (
          bind-returns (checked _) _ h h r (checked-returns _ h r e)
          ∙ change-returns (set_gpr (get_field Inst.rd inst) r) h u w)
      ∙ pure-returns Outcome.sequential (at_core u h)

  -- What OP and OP32 do: the ALU on the two source registers, the result to the destination.
  execute-registers :
      (bus : SysBus S) (inst : ℕ) (op_32 : Bool) (o : AluOp) (h : Hart S)
      → get_field Inst.opcode inst ≡ (if op_32 then opcode_op32 else opcode_op)
      → (if op_32 then op32_decode inst else op_decode inst) ≡ some o
      → execute bus inst h ≡ with_registers inst op_32 (some o) h
  unfolding execute dispatch op op32
  execute-registers bus inst true o h c d = rw c (ap (λ x. with_registers inst true x h) d)
  execute-registers bus inst false o h c d = rw c (ap (λ x. with_registers inst false x h) d)

  unchecked_returns :
      (inst : ℕ) (t : Hart S)
      → finish_unchecked (inst, Outcome.sequential) t
        ≡ some (at_core (retire Outcome.sequential inst t.core) t, tt)
  unfolding finish_unchecked
  unchecked_returns inst t =
      bind-returns (pure tt) _ t t tt (pure-returns tt t)
      ∙ change-returns (λ s. some (retire Outcome.sequential inst s)) t _ refl

  run-returns :
      (bus : SysBus S) (inst : ℕ) (h t : Hart S)
      → IsBlank h.core
      → IsBlank t.core
      → execute bus inst h ≡ some (t, Outcome.sequential)
      → run bus inst h ≡ some (at_core (retire Outcome.sequential inst t.core) t, tt)
  run-returns bus inst h t b bt e =
      bind-returns (execute bus inst) _ h t Outcome.sequential e
      ∙ finish-Agree (inst, Outcome.sequential) t bt
      ∙ unchecked_returns inst t

decoded-some :
    (inst : ℕ) (op_32 : Bool) {o : AluOp}
    → (if op_32 then op32_decode inst else op_decode inst) ≡ some o
    → o ≢ AluOp.alu_nop
decoded-some inst true e = op32_decode-some inst e
decoded-some inst false e = op_decode-some inst e

-- What a retired instruction leaves.
pub record Retired {S : Type 0} (ready t : Hart S) (dest r : ℕ) : Type 0 where
  pub pc_next : t.core.current_program_counter ≡ (ready.core.current_program_counter + 4) % 2 ^ 64
  pub counted : t.core.minstret ≡ (ready.core.minstret + 1) % 2 ^ 64
  pub memory : t.mem ≡ ready.mem
  pub registers :
      (j : ℕ)
      → gpr_at t.core j ≡ (if j == dest then (if dest == 0 then 0 else r) else gpr_at ready.core j)

set_gpr-kept :
    (i v : ℕ) (s u : Rv64Core)
    → set_gpr i v s ≡ some u
    → (u.need_trap ≡ s.need_trap)
      × (u.current_program_counter ≡ s.current_program_counter)
      × (u.minstret ≡ s.minstret)
unfolding set_gpr
set_gpr-kept i v s u e = ground arith

retire-counted :
    (inst : ℕ) (u : Rv64Core)
    → u.need_trap ≡ false
    → is_compressed inst ≡ false
    → ((retire Outcome.sequential inst u).current_program_counter
        ≡ (u.current_program_counter + 4) % 2 ^ 64)
      × ((retire Outcome.sequential inst u).minstret ≡ (u.minstret + 1) % 2 ^ 64)
      × ((retire Outcome.sequential inst u).gpr ≡ u.gpr)
unfolding retire
retire-counted inst u n c = rw (n, c) (refl, refl, refl)

op_not_compressed :
    (inst : ℕ) (op_32 : Bool)
    → get_field Inst.opcode inst ≡ (if op_32 then opcode_op32 else opcode_op)
    → is_compressed inst ≡ false
op_not_compressed inst true e = rw e refl
op_not_compressed inst false e = rw e refl

-- A fetch raises no trap.
pub fetched_no_trap :
    {S : Type 0} (bus : SysBus S) (h ready : Hart S) (inst : ℕ)
    → Fetches bus h ready inst
    → ready.core.need_trap ≡ false
fetched_no_trap {S} bus h ready inst f =
    let ignores : IgnoresMmu (λ s. s.need_trap ≡ false) = record { at = λ s m e. e } in
    let left =
      vaddr_inst_fetch-Leaves bus ignores f.checked_core.current_program_counter 4 f.checked_core
        h.mem f.no_trap in
    rw f.fetch at left

-- Where the step takes no interrupt and fetches, at an even program counter and without a trap,
-- an instruction of OP or OP32 with a code that the decoder knows, with the blank fields of
-- mstatus clear and the 32 registers of 64 bits with x0 zero, the instruction completes: the step
-- returns, the destination holds the result of the ALU, and the program counter and minstret
-- advance by 4 and by 1.
pub step-register_op :
    {S : Type 0} (bus : SysBus S) (h ready : Hart S) (inst : ℕ) (op_32 : Bool) {o : AluOp}
    → Fetches bus h ready inst
    → IsBlank ready.core
    → GprIsValid ready.core
    → get_field Inst.opcode inst ≡ (if op_32 then opcode_op32 else opcode_op)
    → (if op_32 then op32_decode inst else op_decode inst) ≡ some o
    → (r : ℕ) × (t : Hart S) × (alu_exec
          (gpr_at ready.core (get_field Inst.rs1 inst))
          (gpr_at ready.core (get_field Inst.rs2 inst))
          o
          op_32
        ≡ some r)
      × (step bus h ≡ some (t, tt))
      × Retired ready t (get_field Inst.rd inst) r
step-register_op bus h ready inst op_32 {o} f blank valid code decoded =
    let a = gpr_at ready.core (get_field Inst.rs1 inst) in
    let b = gpr_at ready.core (get_field Inst.rs2 inst) in
    let dest = get_field Inst.rd inst in
    let (r, er) = alu_exec-some a b o op_32 (decoded-some inst op_32 decoded) in
    let (u, eu) = set_gpr-returns dest r ready.core (get-lt Inst.rd inst) in
    let done : execute bus inst ready ≡ some (at_core u ready, Outcome.sequential) =
      execute-registers bus inst op_32 o ready code decoded
      ∙ with_registers-returns inst op_32 o ready r u er eu in
    let kept = set_gpr-kept dest r ready.core u eu in
    let off : u.need_trap ≡ false = kept.0 ∙ fetched_no_trap bus h ready inst f in
    let end = retire-counted inst u off (op_not_compressed inst op_32 code) in
    (
      r,
      at_core (retire Outcome.sequential inst u) ready,
      er,
      step-run bus h ready inst f
          ∙ run-returns bus inst ready (at_core u ready) blank
              (IsBlank-Stable.on_gpr dest r ready.core u eu blank) done,
      record {
        pc_next = end.0 ∙ ap (λ p. (p + 4) % 2 ^ 64) kept.1;
        counted = end.1 ∙ ap (λ p. (p + 1) % 2 ^ 64) kept.2;
        memory = refl;
        registers =
            λ j. ap (λ g. get_or g j 0) end.2 ∙ (set_gpr_lem dest j r ready.core valid eu).1;
      },
    )
