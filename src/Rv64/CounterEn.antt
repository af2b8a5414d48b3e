-- ===== src/Rv64/CounterEn.antt =====
-- The fields of CSR_CounterEN_t (modules/core/rv64/include/rv64_csr_structs.h).
use m_emu.Words.{Field, field}

abbrev pub cycle : Field
cycle = field 0 1

abbrev pub time : Field
time = field 1 1

abbrev pub instr_retire : Field
instr_retire = field 2 1
