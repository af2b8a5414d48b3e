-- ===== src/Core/Compressed.antt =====
-- The compressed instructions of modules/core/rv64/src/rv64_exec.cpp.
use m_emu.Base.{ℕ, ◌+◌, ◌%◌, ◌^◌, Bool, true, false, not, bit_and, bit_xor, ◌==◌, if◌then◌else◌}
use m_emu.Rv64.{ExecFeedback, pc_align}
use m_emu.Trap.{ebreak}
use m_emu.Core.Alu.{AluOp}
use m_emu.Core.Inst.{binary_concat}
use m_emu.Core.Immediates.{
  c_rd, c_rs2, c_rd_short, c_rs1_short, c_addi4spn_imm, c_uimm6, c_imm6, c_addi16sp_imm, c_lui_imm,
  c_jump_offset, c_branch_offset,
}
use m_emu.Core.Functs.{funct2_sub, funct2_xor_addw, funct2_or}
use m_emu.Core.Exec.{
  Action, Outcome, pure, change, ◌>>=◌, ◌>>◌, gpr, set_register, pc, set_pc, raise,
}
use m_emu.Core.Compute.{compute}

-- The target of C.JR and C.JALR: bit 0 of the register is cleared.
abbrev pub even_target : ℕ → ℕ
even_target a = if bit_and a 1 == 0 then a else bit_xor a 1

module _ {S : Type 0} where
  unfoldable pub c_addi4spn : ℕ → Action S Outcome
  c_addi4spn inst = if c_addi4spn_imm inst == 0 then pure Outcome.illegal else do
    sp ← gpr 2
    set_register (c_rd_short inst) ((sp + c_addi4spn_imm inst) % 2 ^ 64)
    pure Outcome.sequential

  -- A register is computed from itself.
  unfoldable pub c_update : ℕ → ℕ → AluOp → Bool → Action S Outcome
  c_update dest b op op_32 = do a ← gpr dest; compute dest a b op op_32; pure Outcome.sequential

  -- A case that does nothing where the immediate is 0.
  abbrev pub unless_zero : ℕ → Action S Outcome → Action S Outcome
  unless_zero imm m = if imm == 0 then pure Outcome.sequential else m

  unfoldable pub c_addi : ℕ → Action S Outcome
  c_addi inst = unless_zero (c_imm6 inst) (c_update (c_rd inst) (c_imm6 inst) AluOp.alu_add false)

  unfoldable pub c_addiw : ℕ → Action S Outcome
  c_addiw inst = c_update (c_rd inst) (c_imm6 inst) AluOp.alu_add true

  unfoldable pub c_li : ℕ → Action S Outcome
  c_li inst = do set_register (c_rd inst) (c_imm6 inst); pure Outcome.sequential

  unfoldable pub c_addi16sp_lui : ℕ → Action S Outcome
  c_addi16sp_lui inst =
      if c_rd inst == 2
      then unless_zero (c_addi16sp_imm inst) (do
        sp ← gpr 2
        set_register 2 ((sp + c_addi16sp_imm inst) % 2 ^ 64)
        pure Outcome.sequential)
      else unless_zero (c_lui_imm inst)
          (do set_register (c_rd inst) (c_lui_imm inst); pure Outcome.sequential)

  -- The register forms of C.ALU: SUB and SUBW, XOR and ADDW, OR, AND.
  abbrev pub c_alu_switch : ℕ → ℕ → Bool → ℕ → Action S Outcome
  c_alu_switch inst funct2 instr_12 b =
      if funct2 == funct2_sub
      then c_update (c_rs1_short inst) b AluOp.alu_sub instr_12
      else if funct2 == funct2_xor_addw
      then c_update (c_rs1_short inst) b (if instr_12 then AluOp.alu_add else AluOp.alu_xor)
          instr_12
      else if instr_12
      then pure Outcome.illegal
      else c_update (c_rs1_short inst) b
          (if funct2 == funct2_or then AluOp.alu_or else AluOp.alu_and) false

  unfoldable pub c_alu_registers : ℕ → Action S Outcome
  c_alu_registers inst = do
    b ← gpr (c_rd_short inst)
    c_alu_switch inst (binary_concat inst 6 5 0) (not (binary_concat inst 12 12 0 == 0)) b

  unfoldable pub c_alu : ℕ → Action S Outcome
  c_alu inst =
      if binary_concat inst 11 11 0 == 0
      then unless_zero (c_uimm6 inst) (
          c_update (c_rs1_short inst) (c_uimm6 inst)
            (if binary_concat inst 10 10 0 == 0 then AluOp.alu_srl else AluOp.alu_sra) false)
      else if binary_concat inst 10 10 0 == 0
      then c_update (c_rs1_short inst) (c_imm6 inst) AluOp.alu_and false
      else c_alu_registers inst

  -- currentProgramCounter + imm, without a test of its alignment.
  unfoldable pub c_jump_by : ℕ → Action S Outcome
  c_jump_by imm = do here ← pc; set_pc ((here + imm) % 2 ^ 64); pure Outcome.jumped

  unfoldable pub c_j : ℕ → Action S Outcome
  c_j inst = c_jump_by (c_jump_offset inst)

  abbrev pub c_branch_if : Bool → ℕ → Action S Outcome
  c_branch_if b inst = if b then c_jump_by (c_branch_offset inst) else pure Outcome.sequential

  unfoldable pub c_beqz : ℕ → Action S Outcome
  c_beqz inst = do a ← gpr (c_rs1_short inst); c_branch_if (a == 0) inst

  unfoldable pub c_bnez : ℕ → Action S Outcome
  c_bnez inst = do a ← gpr (c_rs1_short inst); c_branch_if (not (a == 0)) inst

  unfoldable pub c_slli : ℕ → Action S Outcome
  c_slli inst = unless_zero (c_uimm6 inst) (c_update (c_rd inst) (c_uimm6 inst) AluOp.alu_sll false)

  -- The jump to a target, with the address of the next instruction in x1 for C.JALR.
  unfoldable pub c_jump_to : Bool → ℕ → Action S Outcome
  c_jump_to link npc =
      if not (npc % pc_align == 0)
      then (do raise ExecFeedback.instr_misalign npc; pure Outcome.sequential)
      else if link
      then (do here ← pc; set_register 1 ((here + 2) % 2 ^ 64); set_pc npc; pure Outcome.jumped)
      else do set_pc npc; pure Outcome.jumped

  abbrev pub c_jump_register : Bool → ℕ → Action S Outcome
  c_jump_register link source = do a ← gpr source; c_jump_to link (even_target a)

  abbrev pub c_ebreak : Action S Outcome
  c_ebreak = do change ebreak; pure Outcome.sequential

  -- EBREAK, JALR and ADD with bit 12 set, JR and MV with it clear.
  unfoldable pub c_jr_mv_eb_jalr_add : ℕ → Action S Outcome
  c_jr_mv_eb_jalr_add inst =
      if not (binary_concat inst 12 12 0 == 0)
      then (if c_rs2 inst == 0
          then (if c_rd inst == 0 then c_ebreak else c_jump_register true (c_rd inst))
          else (do b ← gpr (c_rs2 inst); c_update (c_rd inst) b AluOp.alu_add false))
      else if c_rs2 inst == 0
      then (if c_rd inst == 0 then pure Outcome.illegal else c_jump_register false (c_rd inst))
      else do b ← gpr (c_rs2 inst); set_register (c_rd inst) b; pure Outcome.sequential
