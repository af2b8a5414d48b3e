-- ===== src/Trap/Policy.antt =====
-- Which interrupts wait.
use m_emu.Base.{ℕ, ◌≡◌, some, arith, bit_and}
use m_emu.Words.{get_field}
use m_emu.Rv64.{PrivMode, Rv64Core}
use m_emu.Rv64.MStatus
use m_emu.Trap.Interrupt.{update_csrs, interrupt_m, check_interrupts, pre_exec}

-- In machine mode with mstatus.mie clear no interrupt is taken.
pub pre_exec_m_masked :
    (s : Rv64Core)
    → s.next_priv_mode ≡ PrivMode.m_mode
    → get_field MStatus.mie s.status ≡ 0
    → pre_exec s ≡ some (update_csrs s)
unfolding pre_exec check_interrupts interrupt_m update_csrs
pre_exec_m_masked s m off = ground arith

-- The bits that the check reads.
abbrev pub int_bits : Rv64Core → ℕ
int_bits s = bit_and (update_csrs s).csr_int_pending s.csr_int_enable
