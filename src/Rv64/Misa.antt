-- ===== src/Rv64/Misa.antt =====
-- The fields of CSR_MISA_t (modules/core/rv64/include/rv64_csr_structs.h).
use m_emu.Words.{Field, field}

abbrev pub ext : Field
ext = field 0 26

abbrev pub blank : Field
blank = field 26 36

abbrev pub mxl : Field
mxl = field 62 2
