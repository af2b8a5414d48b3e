-- ===== src/Tests/Trap.antt =====
-- The theorems on traps at concrete inputs.
use m_emu.Base.{◌≡◌, refl, inr, true, false, some}
use m_emu.Words.{get_field, test_bit}
use m_emu.Rv64.{PrivMode, ExecFeedback, Rv64Core}
use m_emu.Rv64.Reset.{reset}
use m_emu.Rv64.MStatus
use m_emu.Rv64.SStatus
use m_emu.Csr.Legal.{reset-IsLegal}
use m_emu.Trap.{
  CsRegCause, exception, delegated, trap_to_s, trap_to_m, raise_trap, mret, sret, update_csrs,
  pre_exec,
}
use m_emu.Trap.RoundTrip.{entered, mret-raise_trap}
use m_emu.Trap.SRoundTrip.{sret-raise_trap}
use m_emu.Trap.Check.{Checked, pre_exec-Checked}
use m_emu.Tests.Samples.{raw_core, user_core, supervisor_core}

abbrev breakpoint_cause : CsRegCause
breakpoint_cause = exception ExecFeedback.breakpoint

abbrev page_fault : CsRegCause
page_fault = exception ExecFeedback.load_pgfault

breakpoint_raised :
    raise_trap breakpoint_cause 0 user_core ≡ some (trap_to_m breakpoint_cause 0 user_core)
unfolding raise_trap delegated test_bit
breakpoint_raised = refl

page_fault_raised :
    raise_trap page_fault 0x1000 supervisor_core
    ≡ some (trap_to_s page_fault 0x1000 supervisor_core)
unfolding raise_trap delegated test_bit
page_fault_raised = refl

breakpoint_to_m : delegated breakpoint_cause user_core ≡ false
unfolding delegated test_bit
breakpoint_to_m = refl

page_fault_to_s : delegated page_fault supervisor_core ≡ true
unfolding delegated test_bit
page_fault_to_s = refl

mret-raise_trap_example :
    (u : Rv64Core) × (mret (entered (trap_to_m breakpoint_cause 0 user_core)) ≡ some u)
    × (u.next_priv_mode ≡ PrivMode.u_mode)
    × (u.trap_program_counter ≡ 0x80000000)
    × (get_field MStatus.mie u.status ≡ get_field MStatus.mie 0)
    × (get_field MStatus.sum u.status ≡ get_field MStatus.sum 0)
mret-raise_trap_example =
    mret-raise_trap breakpoint_cause 0 MStatus.sum user_core breakpoint_to_m breakpoint_raised refl

sret-raise_trap_example :
    (u : Rv64Core) × (sret (entered (trap_to_s page_fault 0x1000 supervisor_core)) ≡ some u)
    × (u.next_priv_mode ≡ PrivMode.s_mode)
    × (u.trap_program_counter ≡ 0x80000000)
    × (get_field SStatus.sie u.status ≡ get_field SStatus.sie 0)
    × (get_field MStatus.mie u.status ≡ get_field MStatus.mie 0)
sret-raise_trap_example =
    sret-raise_trap page_fault 0x1000 MStatus.mie supervisor_core page_fault_to_s (inr refl) tsr_off
      page_fault_raised refl
  where
    tsr_off : get_field MStatus.tsr 0 ≡ 0
    tsr_off = unfold get_field in refl

-- What sret leaves of the sample in supervisor mode.
abbrev returned : Rv64Core
returned = record supervisor_core {
  status = 0x20;
  next_priv_mode = PrivMode.u_mode;
  need_trap = true;
  trap_program_counter = 0;
}

pre_exec-Checked_example :
    (t : Rv64Core) × (pre_exec (reset raw_core) ≡ some t) × Checked (update_csrs (reset raw_core)) t
pre_exec-Checked_example = pre_exec-Checked (reset raw_core) (reset-IsLegal raw_core)
