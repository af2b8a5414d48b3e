-- ===== src/Rv64/Satp.antt =====
-- The fields of SATP_Reg_t (modules/core/rv64/include/rv64_structs.h).
use m_emu.Words.{Field, field}

abbrev pub ppn : Field
ppn = field 0 44

abbrev pub asid : Field
asid = field 44 16

abbrev pub mode : Field
mode = field 60 4
