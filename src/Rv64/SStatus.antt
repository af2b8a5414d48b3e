-- ===== src/Rv64/SStatus.antt =====
-- The fields of CSReg_SStatus_t (modules/core/rv64/include/rv64_csr_structs.h), a second view of
-- the word that CSReg_MStatus_t lays out.
use m_emu.Words.{Field, field}

abbrev pub sie : Field
sie = field 1 1

abbrev pub spie : Field
spie = field 5 1

abbrev pub ube : Field
ube = field 6 1

abbrev pub spp : Field
spp = field 8 1

abbrev pub vs : Field
vs = field 9 2

abbrev pub fs : Field
fs = field 13 2

abbrev pub xs : Field
xs = field 15 2

abbrev pub sum : Field
sum = field 18 1

abbrev pub mxr : Field
mxr = field 19 1

abbrev pub uxl : Field
uxl = field 32 2

abbrev pub sd : Field
sd = field 63 1
