-- ===== src/Core/Immediates.antt =====
-- The registers and immediates of the compressed instructions, as the cases of
-- modules/core/rv64/src/rv64_exec.cpp put them together with the macro binary_concat.
use m_emu.Base.{ℕ, ◌+◌, ◌/◌, ◌^◌, bit_or, ◌==◌, if◌then◌else◌}
use m_emu.Core.Inst.{binary_concat}

-- The full register field at bit 7, the one at bit 2, and the short fields of x8 to x15.
abbrev pub c_rd : ℕ → ℕ
c_rd inst = binary_concat inst 11 7 0

abbrev pub c_rs2 : ℕ → ℕ
c_rs2 inst = binary_concat inst 6 2 0

abbrev pub c_rd_short : ℕ → ℕ
c_rd_short inst = 8 + binary_concat inst 4 2 0

abbrev pub c_rs1_short : ℕ → ℕ
c_rs1_short inst = 8 + binary_concat inst 9 7 0

-- if (imm >> k) imm |= high
abbrev pub extend_with : ℕ → ℕ → ℕ → ℕ
extend_with k high imm = if imm / 2 ^ k == 0 then imm else bit_or imm high

unfoldable pub c_addi4spn_imm : ℕ → ℕ
c_addi4spn_imm inst =
    bit_or
      (bit_or (bit_or (binary_concat inst 12 11 4) (binary_concat inst 10 7 6))
        (binary_concat inst 6 6 2))
      (binary_concat inst 5 5 3)

-- The offsets of C.LW and C.SW, and of C.LD and C.SD.
unfoldable pub c_word_offset : ℕ → ℕ
c_word_offset inst =
    bit_or (bit_or (binary_concat inst 6 6 2) (binary_concat inst 5 5 6))
      (binary_concat inst 12 10 3)

unfoldable pub c_double_offset : ℕ → ℕ
c_double_offset inst = bit_or (binary_concat inst 6 5 6) (binary_concat inst 12 10 3)

-- The six bits of an immediate, without and with their sign.
unfoldable pub c_uimm6 : ℕ → ℕ
c_uimm6 inst = bit_or (binary_concat inst 12 12 5) (binary_concat inst 6 2 0)

unfoldable pub c_imm6 : ℕ → ℕ
c_imm6 inst = extend_with 5 0xffffffffffffffc0 (c_uimm6 inst)

unfoldable pub c_addi16sp_imm : ℕ → ℕ
c_addi16sp_imm inst = extend_with 9 0xfffffffffffffc00 (
    bit_or
      (bit_or
        (bit_or (bit_or (binary_concat inst 12 12 9) (binary_concat inst 6 6 4))
          (binary_concat inst 5 5 6))
        (binary_concat inst 4 3 7))
      (binary_concat inst 2 2 5))

unfoldable pub c_lui_imm : ℕ → ℕ
c_lui_imm inst =
    extend_with 17 0xfffffffffffc0000
      (bit_or (binary_concat inst 12 12 17) (binary_concat inst 6 2 12))

unfoldable pub c_jump_offset : ℕ → ℕ
c_jump_offset inst = extend_with 11 0xfffffffffffff000 (
    bit_or
      (bit_or
        (bit_or
          (bit_or
            (bit_or
              (bit_or (bit_or (binary_concat inst 12 12 11) (binary_concat inst 11 11 4))
                (binary_concat inst 10 9 8))
              (binary_concat inst 8 8 10))
            (binary_concat inst 7 7 6))
          (binary_concat inst 6 6 7))
        (binary_concat inst 5 3 1))
      (binary_concat inst 2 2 5))

unfoldable pub c_branch_offset : ℕ → ℕ
c_branch_offset inst = extend_with 8 0xfffffffffffffe00 (
    bit_or
      (bit_or
        (bit_or (bit_or (binary_concat inst 12 12 8) (binary_concat inst 11 10 3))
          (binary_concat inst 6 5 6))
        (binary_concat inst 4 3 1))
      (binary_concat inst 2 2 5))

-- The offsets from the stack pointer of C.LWSP, C.LDSP, C.SWSP and C.SDSP.
unfoldable pub c_lwsp_offset : ℕ → ℕ
c_lwsp_offset inst =
    bit_or (bit_or (binary_concat inst 6 4 2) (binary_concat inst 3 2 6))
      (binary_concat inst 12 12 5)

unfoldable pub c_ldsp_offset : ℕ → ℕ
c_ldsp_offset inst =
    bit_or (bit_or (binary_concat inst 6 5 3) (binary_concat inst 4 2 6))
      (binary_concat inst 12 12 5)

unfoldable pub c_swsp_offset : ℕ → ℕ
c_swsp_offset inst = bit_or (binary_concat inst 12 9 2) (binary_concat inst 8 7 6)

unfoldable pub c_sdsp_offset : ℕ → ℕ
c_sdsp_offset inst = bit_or (binary_concat inst 12 10 3) (binary_concat inst 9 7 6)
