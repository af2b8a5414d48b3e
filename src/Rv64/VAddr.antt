-- ===== src/Rv64/VAddr.antt =====
-- The fields of SV39_VAddr_t (modules/core/rv64/include/rv64_sv39_structs.h).
use m_emu.Words.{Field, field}

abbrev pub page_off : Field
page_off = field 0 12

abbrev pub vpn_0 : Field
vpn_0 = field 12 9

abbrev pub vpn_1 : Field
vpn_1 = field 21 9

abbrev pub vpn_2 : Field
vpn_2 = field 30 9

abbrev pub blank : Field
blank = field 39 25
