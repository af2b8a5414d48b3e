-- ===== src/Rv64/Pte.antt =====
-- The fields of SV39_PageTableEntry_t (modules/core/rv64/include/rv64_sv39_structs.h).
use m_emu.Words.{Field, field}

abbrev pub v : Field
v = field 0 1

abbrev pub r : Field
r = field 1 1

abbrev pub w : Field
w = field 2 1

abbrev pub x : Field
x = field 3 1

abbrev pub u : Field
u = field 4 1

abbrev pub g : Field
g = field 5 1

abbrev pub a : Field
a = field 6 1

abbrev pub d : Field
d = field 7 1

abbrev pub rsw : Field
rsw = field 8 2

abbrev pub ppn0 : Field
ppn0 = field 10 9

abbrev pub ppn1 : Field
ppn1 = field 19 9

abbrev pub ppn2 : Field
ppn2 = field 28 26

abbrev pub reserved : Field
reserved = field 54 7

abbrev pub pbmt : Field
pbmt = field 61 2

abbrev pub n : Field
n = field 63 1
