-- ===== src/Rv64/MStatus.antt =====
-- The fields of CSReg_MStatus_t (modules/core/rv64/include/rv64_csr_structs.h).
use m_emu.Words.{Field, field}

abbrev pub sie : Field
sie = field 1 1

abbrev pub mie : Field
mie = field 3 1

abbrev pub spie : Field
spie = field 5 1

abbrev pub ube : Field
ube = field 6 1

abbrev pub mpie : Field
mpie = field 7 1

abbrev pub spp : Field
spp = field 8 1

abbrev pub vs : Field
vs = field 9 2

abbrev pub mpp : Field
mpp = field 11 2

abbrev pub fs : Field
fs = field 13 2

abbrev pub xs : Field
xs = field 15 2

abbrev pub mprv : Field
mprv = field 17 1

abbrev pub sum : Field
sum = field 18 1

abbrev pub mxr : Field
mxr = field 19 1

abbrev pub tvm : Field
tvm = field 20 1

abbrev pub tw : Field
tw = field 21 1

abbrev pub tsr : Field
tsr = field 22 1

abbrev pub uxl : Field
uxl = field 32 2

abbrev pub sxl : Field
sxl = field 34 2

abbrev pub sbe : Field
sbe = field 36 1

abbrev pub mbe : Field
mbe = field 37 1

abbrev pub sd : Field
sd = field 63 1

abbrev pub blank0 : Field
blank0 = field 0 1

abbrev pub blank1 : Field
blank1 = field 2 1

abbrev pub blank2 : Field
blank2 = field 4 1

abbrev pub blank3 : Field
blank3 = field 23 9

abbrev pub blank4 : Field
blank4 = field 38 25
