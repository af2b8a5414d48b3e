-- ===== src/Rv64/IntPending.antt =====
-- The fields of CSReg_IntPending_t (modules/core/rv64/include/rv64_csr_structs.h).
use m_emu.Words.{Field, field}

abbrev pub s_s_ip : Field
s_s_ip = field 1 1

abbrev pub m_s_ip : Field
m_s_ip = field 3 1

abbrev pub s_t_ip : Field
s_t_ip = field 5 1

abbrev pub m_t_ip : Field
m_t_ip = field 7 1

abbrev pub s_e_ip : Field
s_e_ip = field 9 1

abbrev pub m_e_ip : Field
m_e_ip = field 11 1
