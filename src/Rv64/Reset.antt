-- ===== src/Rv64/Reset.antt =====
-- reset, the constructor and the accessors of the core (modules/core/rv64/src/rv64_common.cpp and
-- modules/core/rv64/include/RV64Core.h). `none` is a failed assertion.
use m_emu.Base.{
  ℕ, ◌+◌, ◌^◌, ◌≡◌, refl, false, Option, none, some, ltb, ◌==◌, if◌then◌else◌, length, set, get_or,
  replicate, length-set, get_or-set, get_or-set_self, arith,
}
use m_emu.Words.{set_field}
use m_emu.Rv64.Modes.{PrivMode}
use m_emu.Rv64.State.{Rv64Core}
use m_emu.Rv64.MStatus
use m_emu.Rv64.Misa

-- rv_ext('i') | rv_ext('m') | rv_ext('a') | rv_ext('c') | rv_ext('s') | rv_ext('u')
abbrev pub reset_extensions : ℕ
reset_extensions = 2 ^ 8 + 2 ^ 12 + 2 ^ 0 + 2 ^ 2 + 2 ^ 18 + 2 ^ 20

unfoldable pub reset : Rv64Core → Rv64Core
reset s = record s {
  trap_program_counter = 0;
  need_trap = false;
  current_priv_mode = PrivMode.m_mode;
  next_priv_mode = PrivMode.m_mode;
  status = set_field MStatus.uxl 2 (set_field MStatus.sxl 2 0);
  csr_machine_isa =
      set_field Misa.blank 0
        (set_field Misa.mxl 2 (set_field Misa.ext reset_extensions s.csr_machine_isa));
  csr_m_exception_delegation = 0;
  csr_m_int_delegation = 0;
  csr_int_enable = 0;
  csr_m_trap_vec_base_addr = 0;
  csr_mscratch = 0;
  csr_m_exception_pc = 0;
  csr_machine_cause = 0;
  csr_machine_trap_val = 0;
  csr_m_counter_en = 0;
  csr_int_pending = 0;
  csr_m_cycle_num = 0;
  minstret = 0;
  csr_s_trap_vec_base_addr = 0;
  csr_sscratch = 0;
  csr_s_exception_pc = 0;
  csr_supervisor_cause = 0;
  csr_supervisor_trap_val = 0;
  satp = 0;
  csr_s_counter_en = 0;
  gpr = replicate 32 0;
}

-- WriteProgramCounter_CoreAPI
unfoldable pub write_program_counter : ℕ → Rv64Core → Rv64Core
write_program_counter v s = record s { current_program_counter = v }

-- SetGPRByIndex_CoreAPI and the private setGPR: register 0 is never written.
unfoldable pub set_gpr : ℕ → ℕ → Rv64Core → Option Rv64Core
set_gpr i v s =
    if ltb i 32 then some (if i == 0 then s else record s { gpr = set s.gpr i v }) else none

-- GPR[i]
abbrev pub gpr_at : Rv64Core → ℕ → ℕ
gpr_at s i = get_or s.gpr i 0

-- 32 registers, of which the first reads 0.
pub record GprIsValid (s : Rv64Core) : Type 0 where
  pub count : length s.gpr ≡ 32
  pub x0 : gpr_at s 0 ≡ 0

pub reset-GprIsValid : (s : Rv64Core) → GprIsValid (reset s)
unfolding reset
reset-GprIsValid s = record { count = refl; x0 = refl }

-- Writing a register keeps 32 of them and the zero, stores the value in the register unless it is
-- x0, and changes no other.
pub set_gpr_lem :
    (i j v : ℕ) (s : Rv64Core) {t : Rv64Core}
    → GprIsValid s
    → set_gpr i v s ≡ some t
    → GprIsValid t × (gpr_at t j ≡ (if j == i then (if i == 0 then 0 else v) else gpr_at s j))
unfolding set_gpr
set_gpr_lem i j v s h e = ground (
  arith,
  h.x0,
  h.count,
  length-set s.gpr i v,
  get_or-set s.gpr i j v,
  get_or-set s.gpr i 0 v,
  get_or-set_self s.gpr i v,
)
