-- ===== src/Core/Opcodes.antt =====
-- The opcodes of modules/core/rv64/include/rv64_inst.h.
use m_emu.Base.{ℕ}

-- RV64I_OpCode_enum
abbrev pub opcode_lui : ℕ
opcode_lui = 55

abbrev pub opcode_auipc : ℕ
opcode_auipc = 23

abbrev pub opcode_jal : ℕ
opcode_jal = 111

abbrev pub opcode_jalr : ℕ
opcode_jalr = 103

abbrev pub opcode_branch : ℕ
opcode_branch = 99

abbrev pub opcode_load : ℕ
opcode_load = 3

abbrev pub opcode_store : ℕ
opcode_store = 35

abbrev pub opcode_opimm : ℕ
opcode_opimm = 19

abbrev pub opcode_opimm32 : ℕ
opcode_opimm32 = 27

abbrev pub opcode_op : ℕ
opcode_op = 51

abbrev pub opcode_op32 : ℕ
opcode_op32 = 59

abbrev pub opcode_fence : ℕ
opcode_fence = 15

abbrev pub opcode_system : ℕ
opcode_system = 115

abbrev pub opcode_amo : ℕ
opcode_amo = 47

-- RV64C_OpCode_enum
abbrev pub opcode_c_addi4spn : ℕ
opcode_c_addi4spn = 0

abbrev pub opcode_c_lw : ℕ
opcode_c_lw = 2

abbrev pub opcode_c_ld : ℕ
opcode_c_ld = 3

abbrev pub opcode_c_sw : ℕ
opcode_c_sw = 6

abbrev pub opcode_c_sd : ℕ
opcode_c_sd = 7

abbrev pub opcode_c_addi : ℕ
opcode_c_addi = 8

abbrev pub opcode_c_addiw : ℕ
opcode_c_addiw = 9

abbrev pub opcode_c_li : ℕ
opcode_c_li = 10

abbrev pub opcode_c_addi16spn_lui : ℕ
opcode_c_addi16spn_lui = 11

abbrev pub opcode_c_alu : ℕ
opcode_c_alu = 12

abbrev pub opcode_c_j : ℕ
opcode_c_j = 13

abbrev pub opcode_c_beqz : ℕ
opcode_c_beqz = 14

abbrev pub opcode_c_bnez : ℕ
opcode_c_bnez = 15

abbrev pub opcode_c_slli : ℕ
opcode_c_slli = 16

abbrev pub opcode_c_lwsp : ℕ
opcode_c_lwsp = 18

abbrev pub opcode_c_ldsp : ℕ
opcode_c_ldsp = 19

abbrev pub opcode_c_jr_mv_eb_jalr_add : ℕ
opcode_c_jr_mv_eb_jalr_add = 20

abbrev pub opcode_c_swsp : ℕ
opcode_c_swsp = 22

abbrev pub opcode_c_sdsp : ℕ
opcode_c_sdsp = 23
