-- ===== src/Core/Jumps.antt =====
-- LUI, AUIPC, JAL, JALR and the branches of modules/core/rv64/src/rv64_exec.cpp. PC_ALIGN is 2.
use m_emu.Base.{ℕ, ◌+◌, ◌%◌, ◌^◌, Bool, not, Option, none, some, ltb, ◌==◌, if◌then◌else◌}
use m_emu.Words.{get_field, bit_not}
use m_emu.Base.{bit_and, bit_xor}
use m_emu.Rv64.{ExecFeedback, pc_align}
use m_emu.Mmu.{signed_ltb}
use m_emu.Core.Inst
use m_emu.Core.Functs.{funct3_beq, funct3_bne, funct3_blt, funct3_bge, funct3_bltu, funct3_bgeu}
use m_emu.Core.Exec.{
  Action, Outcome, pure, checked, ◌>>=◌, ◌>>◌, gpr, set_register, pc, set_pc, raise,
}

-- The assertion of JALR: both ways to clear bit 0 of the immediate give the same target.
abbrev pub same_target : ℕ → ℕ → Option (Unit {0})
same_target base imm =
    let even = if bit_and imm 1 == 0 then imm else bit_xor imm 1 in
    if (base + bit_and imm (bit_not 1)) % 2 ^ 64 == (base + even) % 2 ^ 64 then some tt else none

-- The condition of a branch; `none` is an illegal function code.
unfoldable pub branch_taken : ℕ → ℕ → ℕ → Option Bool
branch_taken code a b =
    if code == funct3_beq
    then some (a == b)
    else if code == funct3_bne
    then some (not (a == b))
    else if code == funct3_blt
    then some (signed_ltb a b)
    else if code == funct3_bge
    then some (not (signed_ltb a b))
    else if code == funct3_bltu
    then some (ltb a b)
    else if code == funct3_bgeu
    then some (not (ltb a b))
    else none

module _ {S : Type 0} where
  unfoldable pub lui : ℕ → Action S Outcome
  lui inst = do
    set_register (get_field Inst.rd inst) (Inst.u_immediate inst)
    pure Outcome.sequential

  unfoldable pub auipc : ℕ → Action S Outcome
  auipc inst = do
    here ← pc
    set_register (get_field Inst.rd inst) ((Inst.u_immediate inst + here) % 2 ^ 64)
    pure Outcome.sequential

  -- A jump that leaves the address of the next instruction, `size` bytes on, in a register.
  unfoldable pub jump_and_link : ℕ → ℕ → ℕ → Action S Outcome
  jump_and_link link size npc =
      if not (npc % pc_align == 0)
      then (do raise ExecFeedback.instr_misalign npc; pure Outcome.sequential)
      else do here ← pc; set_register link ((here + size) % 2 ^ 64); set_pc npc; pure Outcome.jumped

  unfoldable pub jal : ℕ → Action S Outcome
  jal inst = do
    here ← pc
    jump_and_link (get_field Inst.rd inst) 4 ((here + Inst.j_offset inst) % 2 ^ 64)

  -- Bit 0 is cleared in the immediate, and not in the target.
  unfoldable pub jalr : ℕ → Action S Outcome
  jalr inst = do
    base ← gpr (get_field Inst.rs1 inst)
    checked (same_target base (Inst.i_immediate inst))
    jump_and_link (get_field Inst.rd inst) 4
        ((base + bit_and (Inst.i_immediate inst) (bit_not 1)) % 2 ^ 64)

  -- The jump of a branch that is taken.
  unfoldable pub branch_to : ℕ → Action S Outcome
  branch_to npc =
      if not (npc % pc_align == 0)
      then (do raise ExecFeedback.instr_misalign npc; pure Outcome.jumped)
      else do set_pc npc; pure Outcome.jumped

  abbrev pub branch_if : ℕ → Option Bool → Action S Outcome
  branch_if npc none = pure Outcome.illegal
  branch_if npc (some b) = if b then branch_to npc else pure Outcome.sequential

  unfoldable pub branch : ℕ → Action S Outcome
  branch inst = do
    a ← gpr (get_field Inst.rs1 inst)
    b ← gpr (get_field Inst.rs2 inst)
    here ← pc
    branch_if ((here + Inst.b_offset inst) % 2 ^ 64) (branch_taken (get_field Inst.funct3 inst) a b)
