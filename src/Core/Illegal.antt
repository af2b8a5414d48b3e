-- ===== src/Core/Illegal.antt =====
-- An instruction with an opcode that the core does not know, through a whole step.
use m_emu.Base.{ℕ, ◌≡◌, refl, ◌∙◌, Bool, true, false, ◌||◌, some, arith, ◌==◌, if◌then◌else◌}
use m_emu.Words.{get_field}
use m_emu.Rv64.{Rv64Core, PrivMode, ExecFeedback}
use m_emu.Trap.{raise_trap, delegated, trap_to_s, trap_to_m, trap_vector, exception}
use m_emu.Trap.Entry.{Enters, enter_s-EntersS, enter_m-EntersM}
use m_emu.Mmu.{SysBus}
use m_emu.Core.Inst
use m_emu.Core.Opcodes.{
  opcode_lui, opcode_auipc, opcode_jal, opcode_jalr, opcode_branch, opcode_load, opcode_store,
  opcode_opimm, opcode_opimm32, opcode_op, opcode_op32, opcode_fence, opcode_system, opcode_amo,
}
use m_emu.Core.Exec.{Hart, Outcome, pure, raise}
use m_emu.Core.Step.{is_compressed, retire, dispatch, execute, step}
use m_emu.Core.Equations.{at_core, bind-returns, change-returns}
use m_emu.Core.StepUnchecked.{IsBlank, finish-Agree, finish_unchecked}
use m_emu.Core.Runs.{Fetches, step-run}
use m_emu.Core.RegisterOps.{fetched_no_trap}

-- The opcodes of RV64I_OpCode_enum.
abbrev pub is_known_opcode : ℕ → Bool
is_known_opcode code =
    code == opcode_lui
    || code == opcode_auipc
    || code == opcode_jal
    || code == opcode_jalr
    || code == opcode_branch
    || code == opcode_load
    || code == opcode_store
    || code == opcode_opimm
    || code == opcode_opimm32
    || code == opcode_op
    || code == opcode_op32
    || code == opcode_fence
    || code == opcode_system
    || code == opcode_amo

-- The hart after an illegal instruction: S_MODE or M_MODE takes the trap with cause 2, the
-- instruction itself as the trap value and its address to return to, with its interrupts disabled
-- and the bit and the mode from before in mstatus; nothing is retired.
pub record TakesIllegal (s t : Rv64Core) (inst : ℕ) : Type 0 where
  pub to_vector : t.current_program_counter ≡ (
      if delegated (exception ExecFeedback.illegal_instr) s
      then trap_vector s.csr_s_trap_vec_base_addr 2
      else trap_vector s.csr_m_trap_vec_base_addr 2)
  pub to_mode : t.next_priv_mode ≡ (
      if delegated (exception ExecFeedback.illegal_instr) s
      then PrivMode.s_mode
      else PrivMode.m_mode)
  pub cause :
      (if delegated (exception ExecFeedback.illegal_instr) s
        then t.csr_supervisor_cause
        else t.csr_machine_cause)
      ≡ 2
  pub value :
      (if delegated (exception ExecFeedback.illegal_instr) s
        then t.csr_supervisor_trap_val
        else t.csr_machine_trap_val)
      ≡ inst
  pub address :
      (if delegated (exception ExecFeedback.illegal_instr) s
        then t.csr_s_exception_pc
        else t.csr_m_exception_pc)
      ≡ s.current_program_counter
  pub status :
      Enters
        (delegated (exception ExecFeedback.illegal_instr) s)
        s.current_priv_mode
        s.status
        t.status
  pub not_counted : t.minstret ≡ s.minstret
  pub registers : t.gpr ≡ s.gpr
  pub settled : t.need_trap ≡ false

illegal_status :
    (to_s : Bool) (inst : ℕ) (s : Rv64Core)
    → Enters to_s s.current_priv_mode s.status
        (retire Outcome.illegal inst (
          if to_s
          then trap_to_s (exception ExecFeedback.illegal_instr) inst s
          else trap_to_m (exception ExecFeedback.illegal_instr) inst s)).status
unfolding trap_to_s trap_to_m retire
illegal_status true inst s = enter_s-EntersS s.current_priv_mode s.status
illegal_status false inst s = enter_m-EntersM s.current_priv_mode s.status

raise_illegal :
    (inst : ℕ) (s : Rv64Core)
    → s.need_trap ≡ false
    → (u : Rv64Core) × (raise_trap (exception ExecFeedback.illegal_instr) inst s ≡ some u)
      × TakesIllegal s (retire Outcome.illegal inst u) inst
unfolding raise_trap trap_to_s trap_to_m retire
raise_illegal inst s n = (
  if delegated (exception ExecFeedback.illegal_instr) s
      then trap_to_s (exception ExecFeedback.illegal_instr) inst s
      else trap_to_m (exception ExecFeedback.illegal_instr) inst s,
  ground arith,
  record {
    to_vector = ground arith;
    to_mode = ground arith;
    cause = ground arith;
    value = ground arith;
    address = ground arith;
    status = illegal_status (delegated (exception ExecFeedback.illegal_instr) s) inst s;
    not_counted = ground arith;
    registers = ground arith;
    settled = ground arith;
  },
)

module _ {S : Type 0} where
  trapped_returns :
      (inst : ℕ) (t : Hart S) (u : Rv64Core)
      → raise_trap (exception ExecFeedback.illegal_instr) inst t.core ≡ some u
      → finish_unchecked (inst, Outcome.illegal) t
        ≡ some (at_core (retire Outcome.illegal inst u) t, tt)
  unfolding finish_unchecked
  trapped_returns inst t u e =
      bind-returns (raise ExecFeedback.illegal_instr inst) _ t (at_core u t) tt
        (change-returns (raise_trap (exception ExecFeedback.illegal_instr) inst) t u e)
      ∙ change-returns (λ s. some (retire Outcome.illegal inst s)) (at_core u t) _ refl

module _ {S : Type 0} (bus : SysBus S) where
  execute_unknown :
      (inst : ℕ) (h : Hart S)
      → is_compressed inst ≡ false
      → is_known_opcode (get_field Inst.opcode inst) ≡ false
      → execute bus inst h ≡ some (h, Outcome.illegal)
  unfolding execute dispatch pure
  execute_unknown inst h c k = ground arith

  -- Where the step takes no interrupt and fetches, at an even program counter and without a trap,
  -- an instruction of 32 bits whose opcode is none of the core's, with the blank fields of mstatus
  -- clear, it takes the trap for an illegal instruction. The step returns: S_MODE if the exception
  -- is delegated, else M_MODE, continues at its trap vector with cause 2, the instruction as the
  -- trap value and its address to return to; its interrupt enable bit is cleared, the previous bit
  -- and the previous mode (one bit of it in S_MODE) are in mstatus, whose other fields are kept;
  -- memory, registers and minstret are left alone.
  pub step-unknown_opcode :
      (h ready : Hart S) (inst : ℕ)
      → Fetches bus h ready inst
      → IsBlank ready.core
      → is_compressed inst ≡ false
      → is_known_opcode (get_field Inst.opcode inst) ≡ false
      → (t : Hart S) × (step bus h ≡ some (t, tt))
        × (t.mem ≡ ready.mem)
        × TakesIllegal ready.core t.core inst
  step-unknown_opcode h ready inst f blank c k =
      let (u, eu, trap) = raise_illegal inst ready.core (fetched_no_trap bus h ready inst f) in
      (
        at_core (retire Outcome.illegal inst u) ready,
        step-run bus h ready inst f
            ∙ bind-returns (execute bus inst) _ ready ready Outcome.illegal
                (execute_unknown inst ready c k)
            ∙ finish-Agree (inst, Outcome.illegal) ready blank
            ∙ trapped_returns inst ready u eu,
        refl,
        trap,
      )
