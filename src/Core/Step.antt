-- ===== src/Core/Step.antt =====
-- Step_CoreAPI of modules/core/rv64/src/rv64_exec.cpp: the interrupt check, the fetch, the
-- instruction, and what follows it.
use m_emu.Base.{ℕ, ◌+◌, ◌%◌, ◌^◌, Bool, false, not, ◌&&◌, none, some, List, ◌==◌, if◌then◌else◌}
use m_emu.Words.{get_field, from_le}
use m_emu.Rv64.{Rv64Core, ExecFeedback, pc_align}
use m_emu.Rv64.MStatus
use m_emu.Trap.{pre_exec}
use m_emu.Mmu.{SysBus, Feedback, vaddr_inst_fetch}
use m_emu.Core.Inst
use m_emu.Core.Opcodes.{
  opcode_lui, opcode_auipc, opcode_jal, opcode_jalr, opcode_branch, opcode_load, opcode_store,
  opcode_opimm, opcode_opimm32, opcode_op, opcode_op32, opcode_fence, opcode_system, opcode_amo,
}
use m_emu.Core.Exec.{Action, Outcome, pure, checked, gets, change, mmu, ◌>>=◌, ◌>>◌, pc, raise}
use m_emu.Core.Jumps.{lui, auipc, jal, jalr, branch}
use m_emu.Core.Memory.{load, store}
use m_emu.Core.Compute.{opimm, opimm32, op, op32}
use m_emu.Core.Atomic.{amo}
use m_emu.Core.System.{system}
use m_emu.Core.CompressedMemory.{compressed}

-- (inst.r_type.opcode & 0b11) != 0b11
abbrev pub is_compressed : ℕ → Bool
is_compressed inst = not (get_field Inst.opcode inst % 4 == 3)

-- The instruction and what it left.
abbrev pub Ran : Type 0
Ran = ℕ × Outcome

module _ {S : Type 0} (bus : SysBus S) where
  -- The switch over the opcode.
  unfoldable pub dispatch : ℕ → Action S Outcome
  dispatch inst =
      let code = get_field Inst.opcode inst in
      if code == opcode_lui
      then lui inst
      else if code == opcode_auipc
      then auipc inst
      else if code == opcode_jal
      then jal inst
      else if code == opcode_jalr
      then jalr inst
      else if code == opcode_branch
      then branch inst
      else if code == opcode_load
      then load bus inst
      else if code == opcode_store
      then store bus inst
      else if code == opcode_opimm
      then opimm inst
      else if code == opcode_opimm32
      then opimm32 inst
      else if code == opcode_op
      then op inst
      else if code == opcode_op32
      then op32 inst
      else if code == opcode_amo
      then amo bus inst
      else if code == opcode_fence
      then pure Outcome.sequential
      else if code == opcode_system
      then system inst
      else pure Outcome.illegal

  unfoldable pub execute : ℕ → Action S Outcome
  execute inst = if is_compressed inst then compressed bus inst else dispatch inst

  -- The code after a failed fetch; the feedback of a misaligned fetch has no cause.
  abbrev pub fetched : ℕ → Feedback × List ℕ → Action S Ran
  fetched here (Feedback.access_ok, bytes) = do
    outcome ← execute (from_le bytes)
    pure (from_le bytes, outcome)
  fetched here (Feedback.access_fault, bytes) = do
    raise ExecFeedback.instr_acc_fault here
    pure (0, Outcome.sequential)
  fetched here (Feedback.page_fault, bytes) = do
    raise ExecFeedback.instr_pgfault here
    pure (0, Outcome.sequential)
  fetched here (Feedback.mis_align, bytes) = checked none

  -- From the fetch to the label `exception`.
  unfoldable pub fetch_execute : Action S Ran
  fetch_execute = do
    here ← pc
    if not (here % pc_align == 0)
        then (do raise ExecFeedback.instr_misalign here; pure (0, Outcome.sequential))
        else do fetch ← mmu (vaddr_inst_fetch bus here 4); fetched here fetch

  -- An interrupt that the check took goes to the label at once.
  unfoldable pub after_check : Bool → Action S Ran
  after_check need_trap = if need_trap then pure (0, Outcome.sequential) else fetch_execute

-- The new program counter and the count of instructions.
unfoldable pub retire : Outcome → ℕ → Rv64Core → Rv64Core
retire outcome inst s =
    if s.need_trap
    then record s { current_program_counter = s.trap_program_counter; need_trap = false }
    else record s {
      current_program_counter = elim outcome [
        | Outcome.jumped ↦ s.current_program_counter
        | _ ↦ (s.current_program_counter + (if is_compressed inst then 2 else 4)) % 2 ^ 64
      ];
      minstret = (s.minstret + 1) % 2 ^ 64;
      need_trap = false;
    }

-- The five assertions at the end.
unfoldable pub blank_status : Rv64Core → Bool
blank_status s =
    get_field MStatus.blank0 s.status == 0
    && get_field MStatus.blank1 s.status == 0
    && get_field MStatus.blank2 s.status == 0
    && get_field MStatus.blank3 s.status == 0
    && get_field MStatus.blank4 s.status == 0

module _ {S : Type 0} where
  abbrev pub trap_illegal : Ran → Action S (Unit {0})
  trap_illegal (inst, Outcome.illegal) = raise ExecFeedback.illegal_instr inst
  trap_illegal (inst, outcome) = pure tt

  -- From the label `exception` on.
  unfoldable pub finish : Ran → Action S (Unit {0})
  finish (inst, outcome) = do
    trap_illegal (inst, outcome)
    change (λ s. some (retire outcome inst s))
    blank ← gets blank_status
    checked (if blank then some tt else none)

  unfoldable pub step : SysBus S → Action S (Unit {0})
  step bus = do
    change pre_exec
    need_trap ← gets (λ s. s.need_trap)
    ran ← after_check bus need_trap
    finish ran
