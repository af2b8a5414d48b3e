-- ===== src/Rv64/TrapVector.antt =====
-- The fields of CSReg_TrapVector_t (modules/core/rv64/include/rv64_csr_structs.h).
use m_emu.Words.{Field, field}

abbrev pub mode : Field
mode = field 0 2

abbrev pub base : Field
base = field 2 62
