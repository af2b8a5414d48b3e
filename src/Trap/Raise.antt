-- ===== src/Trap/Raise.antt =====
-- raiseTrap, ecall and ebreak of modules/core/rv64/inline_impl/rv64_privilege.hpp. `none` is a
-- failed assertion, at which the emulator stops.
use m_emu.Base.{
  ℕ, ◌+◌, ◌*◌, ◌%◌, ◌^◌, Bool, true, false, not, ◌&&◌, Option, none, some, ◌==◌, if◌then◌else◌,
}
use m_emu.Words.{get_field, set_field, test_bit}
use m_emu.Rv64.{PrivMode, priv_num, ExecFeedback, exec_num, Rv64Core}
use m_emu.Rv64.MStatus
use m_emu.Rv64.SStatus
use m_emu.Rv64.TrapVector

-- CSReg_Cause_t: 63 bits of cause and the interrupt bit.
pub record CsRegCause : Type 0 where
  pub cause : ℕ
  pub interrupt : Bool

-- The word that the union holds.
abbrev pub cause_val : CsRegCause → ℕ
cause_val c = if c.interrupt then c.cause % 2 ^ 63 + 2 ^ 63 else c.cause % 2 ^ 63

abbrev pub exception : ExecFeedback → CsRegCause
exception e = record { cause = exec_num e; interrupt = false }

-- `trap_dest == 1`: the trap goes to S_MODE. The shift `1 << cause.cause` is of an int; every
-- cause that the core raises is below 31.
unfoldable pub delegated : CsRegCause → Rv64Core → Bool
delegated cause s =
    not (priv_num s.current_priv_mode == 3)
    && (if cause.interrupt
        then test_bit s.csr_m_int_delegation cause.cause
        else test_bit s.csr_m_exception_delegation cause.cause)

-- (base << 2) + ((mode == 1) ? cause * 4 : 0) on 64 bits
unfoldable pub trap_vector : ℕ → ℕ → ℕ
trap_vector tvec cause =
    (get_field TrapVector.base tvec * 4
      + (if get_field TrapVector.mode tvec == 1 then cause * 4 % 2 ^ 64 else 0))
    % 2 ^ 64

-- spie = sie; sie = 0; spp = currentPrivMode, cut to one bit
unfoldable pub enter_s_status : PrivMode → ℕ → ℕ
enter_s_status p w =
    set_field SStatus.spp (priv_num p)
      (set_field SStatus.sie 0 (set_field SStatus.spie (get_field SStatus.sie w) w))

-- mpie = mie; mie = 0; mpp = currentPrivMode
unfoldable pub enter_m_status : PrivMode → ℕ → ℕ
enter_m_status p w =
    set_field MStatus.mpp (priv_num p)
      (set_field MStatus.mie 0 (set_field MStatus.mpie (get_field MStatus.mie w) w))

unfoldable pub trap_to_s : CsRegCause → ℕ → Rv64Core → Rv64Core
trap_to_s cause tval s = record s {
  csr_supervisor_trap_val = tval;
  csr_supervisor_cause = cause_val cause;
  csr_s_exception_pc = s.current_program_counter;
  status = enter_s_status s.current_priv_mode s.status;
  trap_program_counter = trap_vector s.csr_s_trap_vec_base_addr (cause.cause % 2 ^ 63);
  next_priv_mode = PrivMode.s_mode;
  need_trap = true;
}

unfoldable pub trap_to_m : CsRegCause → ℕ → Rv64Core → Rv64Core
trap_to_m cause tval s = record s {
  csr_machine_trap_val = tval;
  csr_machine_cause = cause_val cause;
  csr_m_exception_pc = s.current_program_counter;
  status = enter_m_status s.current_priv_mode s.status;
  trap_program_counter = trap_vector s.csr_m_trap_vec_base_addr (cause.cause % 2 ^ 63);
  next_priv_mode = PrivMode.m_mode;
  need_trap = true;
}

unfoldable pub raise_trap : CsRegCause → ℕ → Rv64Core → Option Rv64Core
raise_trap cause tval s =
    if s.need_trap
    then none
    else if cause.cause == exec_num ExecFeedback.exec_ok
    then none
    else (let t = if delegated cause s then trap_to_s cause tval s else trap_to_m cause tval s in
        if cause.cause == exec_num ExecFeedback.instr_pgfault && tval == t.trap_program_counter
        then none
        else some t)

-- The cause is the privilege mode plus 8.
unfoldable pub ecall : Rv64Core → Option Rv64Core
ecall s = raise_trap (record { cause = priv_num s.current_priv_mode + 8; interrupt = false }) 0 s

unfoldable pub ebreak : Rv64Core → Option Rv64Core
ebreak s = raise_trap (exception ExecFeedback.breakpoint) 0 s
