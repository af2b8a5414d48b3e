-- ===== src/Tests/Samples.antt =====
-- Sample states of a hart.
use m_emu.Base.{true, false, [], replicate}
use m_emu.Rv64.{PrivMode, TlbEntry, Sv39Mmu, IntStatus, Rv64Core}

abbrev pub blank_entry : TlbEntry
blank_entry = record {
  ppa = 0;
  vpa = 0;
  asid = 0;
  pagesize = 0;
  r = false;
  w = false;
  x = false;
  u = false;
  g = false;
  a = false;
  d = false;
}

abbrev pub blank_mmu : Sv39Mmu
blank_mmu = record {
  tlb = replicate 32 blank_entry;
  tlb_get_cache = [];
  last_swapped_index = 0;
  lr_pa = 0;
  lr_size = 0;
  lr_hart = 0;
  lr_valid = false;
}

abbrev pub quiet : IntStatus
quiet = record { meip = false; msip = false; mtip = false; seip = false }

-- A hart at the start of its memory, with the machine timer line up.
abbrev pub raw_core : Rv64Core
raw_core = record {
  sv39_mmu = blank_mmu;
  gpr = replicate 32 0;
  csr_m_cycle_num = 0;
  csr_m_int_delegation = 0;
  csr_m_exception_delegation = 0;
  csr_machine_trap_val = 0;
  csr_machine_cause = 0;
  csr_m_exception_pc = 0;
  csr_m_trap_vec_base_addr = 0;
  csr_m_counter_en = 0;
  csr_machine_isa = 0;
  csr_mscratch = 0;
  csr_supervisor_trap_val = 0;
  csr_supervisor_cause = 0;
  csr_s_exception_pc = 0;
  csr_s_trap_vec_base_addr = 0;
  csr_s_counter_en = 0;
  csr_sscratch = 0;
  minstret = 0;
  status = 0;
  rv_hart_id = 0;
  satp = 0;
  csr_int_pending = 0;
  csr_int_enable = 0;
  trap_program_counter = 0;
  current_program_counter = 0x80000000;
  need_trap = false;
  current_priv_mode = PrivMode.m_mode;
  next_priv_mode = PrivMode.m_mode;
  int_status = record quiet { mtip = true };
}

abbrev pub user_core : Rv64Core
user_core = record raw_core {
  current_priv_mode = PrivMode.u_mode;
  next_priv_mode = PrivMode.u_mode;
}

-- Supervisor mode, with its page faults and timer interrupts delegated to it.
abbrev pub supervisor_core : Rv64Core
supervisor_core = record raw_core {
  current_priv_mode = PrivMode.s_mode;
  next_priv_mode = PrivMode.s_mode;
  csr_m_exception_delegation = 0xb100;
  csr_m_int_delegation = 0x20;
}
