-- ===== src/Rv64/State.antt =====
-- The state of a hart: the fields of RV64Core (modules/core/rv64/include/RV64Core.h) and of its
-- RV64SV39_MMU (RV64SV39_MMU.h), with the constants of the two classes. Words are native numbers
-- below 2 ^ 64; `int64_t GPR[32]` is a list of 32 two's complement words.
use m_emu.Base.{ℕ, ◌^◌, ◌+◌, ◌-◌, List, Bool}
use m_emu.Rv64.Modes.{PrivMode}

-- SV39_TLB_Entry_t. A page size of 0 is an invalid entry, 1 is 4 KB, 2 is 2 MB, 3 is 1 GB.
pub record TlbEntry : Type 0 where
  pub ppa : ℕ
  pub vpa : ℕ
  pub asid : ℕ
  pub pagesize : ℕ
  pub r : Bool
  pub w : Bool
  pub x : Bool
  pub u : Bool
  pub g : Bool
  pub a : Bool
  pub d : Bool

-- A pointer into `tlb` in the hash map `tlbGetCache` is the index of its entry.
pub record Sv39Mmu : Type 0 where
  pub tlb : List TlbEntry
  pub tlb_get_cache : List (ℕ × ℕ)
  pub last_swapped_index : ℕ
  pub lr_pa : ℕ
  pub lr_size : ℕ
  pub lr_hart : ℕ
  pub lr_valid : Bool

-- The interrupt lines of a hart (rv64_int_status.h), which the interrupt controllers drive.
pub record IntStatus : Type 0 where
  pub meip : Bool
  pub msip : Bool
  pub mtip : Bool
  pub seip : Bool

pub record Rv64Core : Type 0 where
  pub sv39_mmu : Sv39Mmu
  pub gpr : List ℕ
  pub csr_m_cycle_num : ℕ
  pub csr_m_int_delegation : ℕ
  pub csr_m_exception_delegation : ℕ
  pub csr_machine_trap_val : ℕ
  pub csr_machine_cause : ℕ
  pub csr_m_exception_pc : ℕ
  pub csr_m_trap_vec_base_addr : ℕ
  pub csr_m_counter_en : ℕ
  pub csr_machine_isa : ℕ
  pub csr_mscratch : ℕ
  pub csr_supervisor_trap_val : ℕ
  pub csr_supervisor_cause : ℕ
  pub csr_s_exception_pc : ℕ
  pub csr_s_trap_vec_base_addr : ℕ
  pub csr_s_counter_en : ℕ
  pub csr_sscratch : ℕ
  pub minstret : ℕ
  pub status : ℕ
  pub rv_hart_id : ℕ
  pub satp : ℕ
  pub csr_int_pending : ℕ
  pub csr_int_enable : ℕ
  pub trap_program_counter : ℕ
  pub current_program_counter : ℕ
  pub need_trap : Bool
  pub current_priv_mode : PrivMode
  pub next_priv_mode : PrivMode
  pub int_status : IntStatus

-- (1 << 9) | (1 << 1) | (1 << 5)
abbrev pub s_mode_int_mask : ℕ
s_mode_int_mask = 2 ^ 9 + 2 ^ 1 + 2 ^ 5

abbrev pub m_mode_int_mask : ℕ
m_mode_int_mask = 2 ^ 9 + 2 ^ 1 + 2 ^ 5 + 2 ^ 11 + 2 ^ 3 + 2 ^ 7

abbrev pub counter_mask : ℕ
counter_mask = 2 ^ 0 + 2 ^ 2

-- Bits 0 to 15 without bit 11, the environment call from machine mode.
abbrev pub s_mode_exc_mask : ℕ
s_mode_exc_mask = 2 ^ 16 - 1 - 2 ^ 11

abbrev pub pc_align : ℕ
pc_align = 2

abbrev pub tlb_size : ℕ
tlb_size = 32
