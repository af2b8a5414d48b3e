-- ===== src/Core/Functs.antt =====
-- The function codes of modules/core/rv64/include/rv64_inst.h.
use m_emu.Base.{ℕ}

-- RV64C_Funct2_enum
abbrev pub funct2_sub : ℕ
funct2_sub = 0

abbrev pub funct2_xor_addw : ℕ
funct2_xor_addw = 1

abbrev pub funct2_or : ℕ
funct2_or = 2

abbrev pub funct2_and : ℕ
funct2_and = 3

-- Funct3_Branch_enum
abbrev pub funct3_beq : ℕ
funct3_beq = 0

abbrev pub funct3_bne : ℕ
funct3_bne = 1

abbrev pub funct3_blt : ℕ
funct3_blt = 4

abbrev pub funct3_bge : ℕ
funct3_bge = 5

abbrev pub funct3_bltu : ℕ
funct3_bltu = 6

abbrev pub funct3_bgeu : ℕ
funct3_bgeu = 7

-- Funct3_Load_enum
abbrev pub funct3_lb : ℕ
funct3_lb = 0

abbrev pub funct3_lh : ℕ
funct3_lh = 1

abbrev pub funct3_lw : ℕ
funct3_lw = 2

abbrev pub funct3_ld : ℕ
funct3_ld = 3

abbrev pub funct3_lbu : ℕ
funct3_lbu = 4

abbrev pub funct3_lhu : ℕ
funct3_lhu = 5

abbrev pub funct3_lwu : ℕ
funct3_lwu = 6

-- Funct3_Store_enum
abbrev pub funct3_sb : ℕ
funct3_sb = 0

abbrev pub funct3_sh : ℕ
funct3_sh = 1

abbrev pub funct3_sw : ℕ
funct3_sw = 2

abbrev pub funct3_sd : ℕ
funct3_sd = 3

-- Funct3_Op_enum
abbrev pub funct3_add_sub : ℕ
funct3_add_sub = 0

abbrev pub funct3_sll : ℕ
funct3_sll = 1

abbrev pub funct3_slt : ℕ
funct3_slt = 2

abbrev pub funct3_sltu : ℕ
funct3_sltu = 3

abbrev pub funct3_xor : ℕ
funct3_xor = 4

abbrev pub funct3_srl_sra : ℕ
funct3_srl_sra = 5

abbrev pub funct3_or : ℕ
funct3_or = 6

abbrev pub funct3_and : ℕ
funct3_and = 7

-- Funct3_M_enum
abbrev pub funct3_mul : ℕ
funct3_mul = 0

abbrev pub funct3_mulh : ℕ
funct3_mulh = 1

abbrev pub funct3_mulhsu : ℕ
funct3_mulhsu = 2

abbrev pub funct3_mulhu : ℕ
funct3_mulhu = 3

abbrev pub funct3_div : ℕ
funct3_div = 4

abbrev pub funct3_divu : ℕ
funct3_divu = 5

abbrev pub funct3_rem : ℕ
funct3_rem = 6

abbrev pub funct3_remu : ℕ
funct3_remu = 7

-- Funct3_System_enum
abbrev pub funct3_priv : ℕ
funct3_priv = 0

abbrev pub funct3_csrrw : ℕ
funct3_csrrw = 1

abbrev pub funct3_csrrs : ℕ
funct3_csrrs = 2

abbrev pub funct3_csrrc : ℕ
funct3_csrrc = 3

abbrev pub funct3_hlsv : ℕ
funct3_hlsv = 4

abbrev pub funct3_csrrwi : ℕ
funct3_csrrwi = 5

abbrev pub funct3_csrrsi : ℕ
funct3_csrrsi = 6

abbrev pub funct3_csrrci : ℕ
funct3_csrrci = 7

-- Funct7_Priv_enum
abbrev pub funct7_ecall_ebreak : ℕ
funct7_ecall_ebreak = 0

abbrev pub funct7_sret_wfi : ℕ
funct7_sret_wfi = 8

abbrev pub funct7_mret : ℕ
funct7_mret = 24

abbrev pub funct7_sfence_vma : ℕ
funct7_sfence_vma = 9

-- Funct7_Op_enum
abbrev pub funct7_normal : ℕ
funct7_normal = 0

abbrev pub funct7_sub_sra : ℕ
funct7_sub_sra = 32

abbrev pub funct7_mul : ℕ
funct7_mul = 1

-- Funct6_Op_enum
abbrev pub funct6_normal : ℕ
funct6_normal = 0

abbrev pub funct6_sra : ℕ
funct6_sra = 16
