-- ===== src/Tests/Csr.antt =====
-- The theorems on the CSRs at concrete inputs.
use m_emu.Base.{◌≡◌, refl, some, bit_and, arith}
use m_emu.Words.{get_field, set_field, bit_not, copy_fields}
use m_emu.Rv64.{Rv64Core}
use m_emu.Csr.{
  RvCsrAddr, written, refused, csr_read, csr_write, to_csr_addr, csr_op_permission_check, merge,
  mstatus_fields_1, mstatus_fields_2,
}
use m_emu.Csr.Effect.{csr_read-csr_write}
use m_emu.Csr.Isolation.{SameMachine, csr_write_user, csr_write_supervisor}
use m_emu.Tests.Samples.{raw_core, user_core, supervisor_core}

csr_read-csr_write_example :
    csr_read RvCsrAddr.sie (record supervisor_core { csr_int_enable = 0x222 })
    ≡ some (bit_and 0xffff 0x222)
unfolding csr_write merge bit_not
csr_read-csr_write_example =
    csr_read-csr_write RvCsrAddr.sie 0xffff supervisor_core (omega arith) refl refl

-- The state that a write of mstatus leaves.
abbrev after_mstatus : Rv64Core
after_mstatus = record raw_core {
  status = copy_fields mstatus_fields_2 0x1888 (copy_fields mstatus_fields_1 0x1888 0);
}

after_mstatus_lem : csr_write RvCsrAddr.mstatus 0x1888 raw_core ≡ written after_mstatus
unfolding csr_write get_field set_field
after_mstatus_lem = refl

csr_write_user_example : csr_write (to_csr_addr 0x000) 5 user_core ≡ refused
unfolding csr_op_permission_check
csr_write_user_example = csr_write_user 0x000 5 user_core refl refl

csr_write_supervisor_example :
    SameMachine supervisor_core (record supervisor_core { csr_sscratch = 7 })
unfolding csr_op_permission_check csr_write to_csr_addr
csr_write_supervisor_example = csr_write_supervisor 0x140 7 supervisor_core refl refl refl
