-- ===== src/Trap/Interrupt.antt =====
-- preExec of modules/core/rv64/inline_impl/rv64_privilege.hpp.
use m_emu.Base.{
  ℕ, ◌+◌, ◌%◌, ◌^◌, Bool, true, false, not, ◌&&◌, Option, some, bit_and, ltb, ◌==◌, if◌then◌else◌,
}
use m_emu.Words.{get_field, set_field, bit_not}
use m_emu.Rv64.{priv_num, IntType, int_num, bits_to_int_type, IntStatus, Rv64Core}
use m_emu.Rv64.MStatus
use m_emu.Rv64.IntPending
use m_emu.Trap.Raise.{CsRegCause, raise_trap}

abbrev pub bit_of : Bool → ℕ
bit_of true = 1
bit_of false = 0

abbrev pub interrupt : IntType → CsRegCause
interrupt i = record { cause = int_num i; interrupt = true }

-- The lines of the interrupt controllers become bits of mip.
unfoldable pub pending_lines : IntStatus → ℕ → ℕ
pending_lines i w = set_field IntPending.s_e_ip (bit_of i.seip) (
    set_field IntPending.m_t_ip (bit_of i.mtip)
      (set_field IntPending.m_s_ip (bit_of i.msip) (set_field IntPending.m_e_ip (bit_of i.meip) w)))

-- The first part: the cycle counter, the pending bits, the pending change of mode.
unfoldable pub update_csrs : Rv64Core → Rv64Core
update_csrs s = record s {
  csr_m_cycle_num = (s.csr_m_cycle_num + 1) % 2 ^ 64;
  csr_int_pending = pending_lines s.int_status s.csr_int_pending;
  need_trap = false;
  current_priv_mode = s.next_priv_mode;
}

-- In M_MODE: only interrupts that are not delegated, and only with mstatus.mie.
unfoldable pub interrupt_m : ℕ → Rv64Core → Option Rv64Core
interrupt_m int_bits s =
    let m_mode_int_bits = bit_and int_bits (bit_not s.csr_m_int_delegation) in
    if not (get_field MStatus.mie s.status == 0) && not (m_mode_int_bits == 0)
    then raise_trap (interrupt (bits_to_int_type m_mode_int_bits)) 0 s
    else some s

-- In a lower mode. The interrupt that is raised is the first of all those pending.
unfoldable pub interrupt_lower : ℕ → Rv64Core → Option Rv64Core
interrupt_lower int_bits s =
    let trap = raise_trap (interrupt (bits_to_int_type int_bits)) 0 s in
    if not (bit_and int_bits s.csr_m_int_delegation == 0)
    then (if ltb (priv_num s.current_priv_mode) 1
        then trap
        else if not (get_field MStatus.sie s.status == 0)
        then trap
        else some s)
    else (if ltb (priv_num s.current_priv_mode) 3
        then trap
        else if not (get_field MStatus.mie s.status == 0)
        then trap
        else some s)

unfoldable pub no_interrupt : IntType → Bool
no_interrupt IntType.int_no_int = true
no_interrupt _ = false

unfoldable pub check_interrupts : Rv64Core → Option Rv64Core
unfolding no_interrupt
check_interrupts s =
    let int_bits = bit_and s.csr_int_pending s.csr_int_enable in
    if no_interrupt (bits_to_int_type int_bits)
    then some s
    else if priv_num s.current_priv_mode == 3
    then interrupt_m int_bits s
    else interrupt_lower int_bits s

unfoldable pub pre_exec : Rv64Core → Option Rv64Core
pre_exec s = check_interrupts (update_csrs s)
