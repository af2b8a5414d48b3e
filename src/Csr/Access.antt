-- ===== src/Csr/Access.antt =====
-- csr_read, csr_write, csr_setbit, csr_clearbit and csr_op_permission_check of
-- modules/core/rv64/inline_impl/rv64_privilege.hpp.
use m_emu.Base.{
  ℕ, ◌/◌, ◌%◌, ◌^◌, Bool, true, false, not, ◌&&◌, ◌||◌, Option, none, some, List, [], ◌∷◌, bit_and,
  bit_or, ltb, leb, ◌==◌, if◌then◌else◌,
}
use m_emu.Words.{Field, get_field, set_field, bit_not, copy_fields}
use m_emu.Rv64.{priv_num, Rv64Core, s_mode_int_mask, m_mode_int_mask, s_mode_exc_mask, counter_mask}
use m_emu.Rv64.MStatus
use m_emu.Rv64.SStatus
use m_emu.Rv64.CounterEn
use m_emu.Rv64.TrapVector
use m_emu.Rv64.Satp
use m_emu.Csr.Addr.{RvCsrAddr}

-- The fields that reading sstatus copies into a zeroed word.
abbrev pub sstatus_read_fields : List Field
sstatus_read_fields =
    SStatus.sie ∷ SStatus.spie ∷ SStatus.ube ∷ SStatus.spp ∷ SStatus.vs ∷ SStatus.fs ∷ SStatus.xs
    ∷ SStatus.sum ∷ SStatus.mxr ∷ SStatus.uxl ∷ SStatus.sd ∷ []

-- Reading or writing satp in S_MODE while mstatus.tvm is set.
abbrev pub satp_trapped : Rv64Core → Bool
satp_trapped s = priv_num s.current_priv_mode == 1 && not (get_field MStatus.tvm s.status == 0)

abbrev pub cycle_refused : Rv64Core → Bool
cycle_refused s =
    leb (priv_num s.current_priv_mode) 1
    && (get_field CounterEn.cycle s.csr_m_counter_en == 0
        || get_field CounterEn.cycle s.csr_s_counter_en == 0)

-- `none` is the result `false`.
unfoldable pub csr_read : RvCsrAddr → Rv64Core → Option ℕ
csr_read RvCsrAddr.mvendorid s = some 0
csr_read RvCsrAddr.marchid s = some 0
csr_read RvCsrAddr.mimpid s = some 0
csr_read RvCsrAddr.mhartid s = some s.rv_hart_id
csr_read RvCsrAddr.mconfigptr s = some 0
csr_read RvCsrAddr.mstatus s = some s.status
csr_read RvCsrAddr.misa s = some s.csr_machine_isa
csr_read RvCsrAddr.medeleg s = some s.csr_m_exception_delegation
csr_read RvCsrAddr.mideleg s = some s.csr_m_int_delegation
csr_read RvCsrAddr.mie s = some s.csr_int_enable
csr_read RvCsrAddr.mtvec s = some s.csr_m_trap_vec_base_addr
csr_read RvCsrAddr.mcounteren s = some s.csr_m_counter_en
csr_read RvCsrAddr.mscratch s = some s.csr_mscratch
csr_read RvCsrAddr.mepc s = some s.csr_m_exception_pc
csr_read RvCsrAddr.mcause s = some s.csr_machine_cause
csr_read RvCsrAddr.mtval s = some s.csr_machine_trap_val
csr_read RvCsrAddr.mip s = some s.csr_int_pending
csr_read RvCsrAddr.mcycle s = some s.csr_m_cycle_num
csr_read RvCsrAddr.minstret s = some s.minstret
csr_read RvCsrAddr.sstatus s = some (copy_fields sstatus_read_fields s.status 0)
csr_read RvCsrAddr.sie s = some (bit_and s.csr_int_enable s_mode_int_mask)
csr_read RvCsrAddr.stvec s = some s.csr_s_trap_vec_base_addr
csr_read RvCsrAddr.scounteren s = some s.csr_s_counter_en
csr_read RvCsrAddr.sscratch s = some s.csr_sscratch
csr_read RvCsrAddr.sepc s = some s.csr_s_exception_pc
csr_read RvCsrAddr.scause s = some s.csr_supervisor_cause
csr_read RvCsrAddr.stval s = some s.csr_supervisor_trap_val
csr_read RvCsrAddr.sip s = some (bit_and s.csr_int_pending s_mode_int_mask)
csr_read RvCsrAddr.satp s = if satp_trapped s then none else some s.satp
csr_read RvCsrAddr.cycle s = if cycle_refused s then none else some s.csr_m_cycle_num
csr_read RvCsrAddr.tselect s = some 1
csr_read RvCsrAddr.tdata1 s = some 0
csr_read _ s = none

-- `refused` is the result `false`, which leaves the state alone; `aborted` is a failed assertion.
pub data CsrOutcome : Type 0 where
  written : Rv64Core → CsrOutcome
  refused aborted : CsrOutcome

-- The fields that a write of mstatus takes over, before and after the two assertions.
abbrev pub mstatus_fields_1 : List Field
mstatus_fields_1 = MStatus.sie ∷ MStatus.mie ∷ MStatus.spie ∷ MStatus.mpie ∷ []

abbrev pub mstatus_fields_2 : List Field
mstatus_fields_2 =
    MStatus.spp ∷ MStatus.mpp ∷ MStatus.mprv ∷ MStatus.sum ∷ MStatus.mxr ∷ MStatus.tvm ∷ MStatus.tw
    ∷ MStatus.tsr ∷ []

abbrev pub sstatus_fields_1 : List Field
sstatus_fields_1 = SStatus.sie ∷ SStatus.spie ∷ []

abbrev pub sstatus_fields_2 : List Field
sstatus_fields_2 = SStatus.spp ∷ SStatus.sum ∷ SStatus.mxr ∷ []

-- (old & ~mask) | (new & mask)
unfoldable pub merge : ℕ → ℕ → ℕ → ℕ
merge mask new old = bit_or (bit_and old (bit_not mask)) (bit_and new mask)

-- A reserved mode is written as direct mode.
abbrev pub stvec_value : ℕ → ℕ
stvec_value v = if ltb 1 (get_field TrapVector.mode v) then set_field TrapVector.mode 0 v else v

-- Any mode but bare and Sv39 is written as bare.
abbrev pub satp_value : ℕ → ℕ
satp_value v =
    if not (get_field Satp.mode v == 0) && not (get_field Satp.mode v == 8)
    then set_field Satp.mode 0 v
    else v

unfoldable pub csr_write : RvCsrAddr → ℕ → Rv64Core → CsrOutcome
csr_write RvCsrAddr.mstatus csr_data s =
    let status = copy_fields mstatus_fields_1 csr_data s.status in
    if get_field MStatus.spie status == 2 || get_field MStatus.mpie status == 2
    then aborted
    else written (record s { status = copy_fields mstatus_fields_2 csr_data status })
csr_write RvCsrAddr.sstatus csr_data s =
    let status = copy_fields sstatus_fields_1 csr_data s.status in
    if get_field SStatus.spie status == 2
    then aborted
    else written (record s { status = copy_fields sstatus_fields_2 csr_data status })
csr_write RvCsrAddr.misa csr_data s = written s
csr_write RvCsrAddr.medeleg csr_data s =
    written (record s { csr_m_exception_delegation = bit_and csr_data s_mode_exc_mask })
csr_write RvCsrAddr.mideleg csr_data s =
    written (record s { csr_m_int_delegation = bit_and csr_data s_mode_int_mask })
csr_write RvCsrAddr.mie csr_data s =
    written (record s { csr_int_enable = bit_and csr_data m_mode_int_mask })
csr_write RvCsrAddr.mtvec csr_data s =
    if leb (get_field TrapVector.mode csr_data) 1
    then written (record s { csr_m_trap_vec_base_addr = csr_data })
    else aborted
csr_write RvCsrAddr.mcounteren csr_data s =
    written (record s { csr_m_counter_en = bit_and csr_data counter_mask })
csr_write RvCsrAddr.mscratch csr_data s = written (record s { csr_mscratch = csr_data })
csr_write RvCsrAddr.mepc csr_data s = written (record s { csr_m_exception_pc = csr_data })
csr_write RvCsrAddr.mcause csr_data s = written (record s { csr_machine_cause = csr_data })
csr_write RvCsrAddr.mtval csr_data s = written (record s { csr_machine_trap_val = csr_data })
csr_write RvCsrAddr.mip csr_data s =
    written (record s { csr_int_pending = bit_and csr_data m_mode_int_mask })
csr_write RvCsrAddr.mcycle csr_data s = written (record s { csr_m_cycle_num = csr_data })
csr_write RvCsrAddr.sie csr_data s =
    written (record s { csr_int_enable = merge s_mode_int_mask csr_data s.csr_int_enable })
csr_write RvCsrAddr.stvec csr_data s =
    written (record s { csr_s_trap_vec_base_addr = stvec_value csr_data })
csr_write RvCsrAddr.scounteren csr_data s =
    written (record s { csr_s_counter_en = bit_and csr_data counter_mask })
csr_write RvCsrAddr.sscratch csr_data s = written (record s { csr_sscratch = csr_data })
csr_write RvCsrAddr.sepc csr_data s = written (record s { csr_s_exception_pc = csr_data })
csr_write RvCsrAddr.scause csr_data s = written (record s { csr_supervisor_cause = csr_data })
csr_write RvCsrAddr.stval csr_data s = written (record s { csr_supervisor_trap_val = csr_data })
csr_write RvCsrAddr.sip csr_data s =
    written (record s { csr_int_pending = merge s_mode_int_mask csr_data s.csr_int_pending })
csr_write RvCsrAddr.satp csr_data s =
    if satp_trapped s then refused else written (record s { satp = satp_value csr_data })
csr_write RvCsrAddr.tselect csr_data s = written s
csr_write RvCsrAddr.tdata1 csr_data s = written s
csr_write _ csr_data s = refused

unfoldable pub csr_setbit : RvCsrAddr → ℕ → Rv64Core → CsrOutcome
csr_setbit c csr_mask s = elim (csr_read c s) [
  | none ↦ refused
  | some tmp ↦ csr_write c (bit_or tmp csr_mask) s
]

unfoldable pub csr_clearbit : RvCsrAddr → ℕ → Rv64Core → CsrOutcome
csr_clearbit c csr_mask s = elim (csr_read c s) [
  | none ↦ refused
  | some tmp ↦ csr_write c (bit_and tmp (bit_not csr_mask)) s
]

unfoldable pub csr_op_permission_check : ℕ → Bool → Rv64Core → Bool
csr_op_permission_check csr_index write s =
    if ltb (priv_num s.current_priv_mode) (csr_index / 2 ^ 8 % 4)
    then false
    else if csr_index / 2 ^ 10 % 4 == 3 && write
    then false
    else true
