-- ===== src/Core/CompressedMemory.antt =====
-- The compressed loads and stores of modules/core/rv64/src/rv64_exec.cpp, and the switch over the
-- compressed instructions.
use m_emu.Base.{ℕ, ◌+◌, ◌*◌, ◌/◌, ◌%◌, ◌^◌, ◌==◌, if◌then◌else◌}
use m_emu.Words.{sign_extend}
use m_emu.Mmu.{SysBus}
use m_emu.Core.Immediates.{
  c_rd, c_rs2, c_rd_short, c_rs1_short, c_word_offset, c_double_offset, c_lwsp_offset,
  c_ldsp_offset, c_swsp_offset, c_sdsp_offset,
}
use m_emu.Core.Opcodes.{
  opcode_c_addi4spn, opcode_c_lw, opcode_c_ld, opcode_c_sw, opcode_c_sd, opcode_c_addi,
  opcode_c_addiw, opcode_c_li, opcode_c_addi16spn_lui, opcode_c_alu, opcode_c_j, opcode_c_beqz,
  opcode_c_bnez, opcode_c_slli, opcode_c_lwsp, opcode_c_ldsp, opcode_c_jr_mv_eb_jalr_add,
  opcode_c_swsp, opcode_c_sdsp,
}
use m_emu.Core.Exec.{Action, Outcome, pure, ◌>>=◌, gpr}
use m_emu.Core.Memory.{load_to, store_from}
use m_emu.Core.Compressed.{
  c_addi4spn, c_addi, c_addiw, c_li, c_addi16sp_lui, c_alu, c_j, c_beqz, c_bnez, c_slli,
  c_jr_mv_eb_jalr_add,
}

-- ((inst.val & 0b11) << 3) | ((inst.val >> 13) & 0b111)
unfoldable pub rvc_opcode : ℕ → ℕ
rvc_opcode inst = inst % 2 ^ 2 * 2 ^ 3 + inst / 2 ^ 13 % 2 ^ 3

module _ {S : Type 0} (bus : SysBus S) where
  unfoldable pub c_lw : ℕ → Action S Outcome
  c_lw inst = do
    base ← gpr (c_rs1_short inst)
    load_to bus (c_rd_short inst) ((base + c_word_offset inst) % 2 ^ 64) 4 (sign_extend 32)

  unfoldable pub c_ld : ℕ → Action S Outcome
  c_ld inst = do
    base ← gpr (c_rs1_short inst)
    load_to bus (c_rd_short inst) ((base + c_double_offset inst) % 2 ^ 64) 8 (λ v. v)

  unfoldable pub c_sw : ℕ → Action S Outcome
  c_sw inst = do
    base ← gpr (c_rs1_short inst)
    store_from bus (c_rd_short inst) ((base + c_word_offset inst) % 2 ^ 64) 4

  unfoldable pub c_sd : ℕ → Action S Outcome
  c_sd inst = do
    base ← gpr (c_rs1_short inst)
    store_from bus (c_rd_short inst) ((base + c_double_offset inst) % 2 ^ 64) 8

  unfoldable pub c_lwsp : ℕ → Action S Outcome
  c_lwsp inst = do
    sp ← gpr 2
    load_to bus (c_rd inst) ((sp + c_lwsp_offset inst) % 2 ^ 64) 4 (sign_extend 32)

  unfoldable pub c_ldsp : ℕ → Action S Outcome
  c_ldsp inst = do
    sp ← gpr 2
    load_to bus (c_rd inst) ((sp + c_ldsp_offset inst) % 2 ^ 64) 8 (λ v. v)

  unfoldable pub c_swsp : ℕ → Action S Outcome
  c_swsp inst = do sp ← gpr 2; store_from bus (c_rs2 inst) ((sp + c_swsp_offset inst) % 2 ^ 64) 4

  unfoldable pub c_sdsp : ℕ → Action S Outcome
  c_sdsp inst = do sp ← gpr 2; store_from bus (c_rs2 inst) ((sp + c_sdsp_offset inst) % 2 ^ 64) 8

  unfoldable pub compressed : ℕ → Action S Outcome
  compressed inst =
      let code = rvc_opcode inst in
      if code == opcode_c_addi4spn
      then c_addi4spn inst
      else if code == opcode_c_lw
      then c_lw inst
      else if code == opcode_c_ld
      then c_ld inst
      else if code == opcode_c_sw
      then c_sw inst
      else if code == opcode_c_sd
      then c_sd inst
      else if code == opcode_c_addi
      then c_addi inst
      else if code == opcode_c_addiw
      then c_addiw inst
      else if code == opcode_c_li
      then c_li inst
      else if code == opcode_c_addi16spn_lui
      then c_addi16sp_lui inst
      else if code == opcode_c_alu
      then c_alu inst
      else if code == opcode_c_j
      then c_j inst
      else if code == opcode_c_beqz
      then c_beqz inst
      else if code == opcode_c_bnez
      then c_bnez inst
      else if code == opcode_c_slli
      then c_slli inst
      else if code == opcode_c_lwsp
      then c_lwsp inst
      else if code == opcode_c_ldsp
      then c_ldsp inst
      else if code == opcode_c_jr_mv_eb_jalr_add
      then c_jr_mv_eb_jalr_add inst
      else if code == opcode_c_swsp
      then c_swsp inst
      else if code == opcode_c_sdsp
      then c_sdsp inst
      else pure Outcome.illegal
