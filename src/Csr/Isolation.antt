-- ===== src/Csr/Isolation.antt =====
-- Who may write what: a lower privilege mode cannot reach the state of a higher one through the
-- CSR instructions, which test csr_op_permission_check on the raw index before they write.
use m_emu.Base.{ℕ, ◌<◌, ◌≡◌, refl, ap, Bool, true, false, ◌||◌, ◌++◌, ◌==◌, bit_and, arith}
use m_emu.Words.{
  all_apart, field, get_field, test_bit, test_bit-and, test_bit-or, test_bit-not, bit_not,
}
use m_emu.Rv64.{PrivMode, Rv64Core, s_mode_int_mask}
use m_emu.Rv64.MStatus
use m_emu.Csr.Addr.{RvCsrAddr, csr_index, to_csr_addr}
use m_emu.Csr.Effect.{csr_write-field_kept}
use m_emu.Csr.Access.{
  written, refused, csr_write, csr_op_permission_check, merge, sstatus_fields_1, sstatus_fields_2,
}

-- The switch and the permission check see the same index.
pub csr_index-to_csr_addr : (i : ℕ) → csr_index (to_csr_addr i) ≡ i
unfolding csr_index to_csr_addr
csr_index-to_csr_addr i = ground arith

user_write :
    (c : RvCsrAddr) (v : ℕ) (s : Rv64Core)
    → s.current_priv_mode ≡ PrivMode.u_mode
    → csr_op_permission_check (csr_index c) true s ≡ true
    → csr_write c v s ≡ refused
unfolding csr_index csr_op_permission_check csr_write
user_write RvCsrAddr.mstatus v s u h = ground arith
user_write c v s u h = ground arith

-- User mode writes no CSR: an index that passes the permission check is refused by the write.
pub csr_write_user :
    (i v : ℕ) (s : Rv64Core)
    → s.current_priv_mode ≡ PrivMode.u_mode
    → csr_op_permission_check i true s ≡ true
    → csr_write (to_csr_addr i) v s ≡ refused
csr_write_user i v s u h = user_write (to_csr_addr i) v s u (rw (csr_index-to_csr_addr i) h)

-- The fields of the status word that supervisor mode writes: sie, spie, spp, sum and mxr.
abbrev pub is_s_status_bit : ℕ → Bool
is_s_status_bit i = i == 1 || i == 5 || i == 8 || i == 18 || i == 19

-- The registers that belong to machine mode, and all of the status word but the fields that
-- supervisor mode writes.
pub record SameMachine (s t : Rv64Core) : Type 0 where
  pub mideleg : t.csr_m_int_delegation ≡ s.csr_m_int_delegation
  pub medeleg : t.csr_m_exception_delegation ≡ s.csr_m_exception_delegation
  pub mtvec : t.csr_m_trap_vec_base_addr ≡ s.csr_m_trap_vec_base_addr
  pub mcounteren : t.csr_m_counter_en ≡ s.csr_m_counter_en
  pub mscratch : t.csr_mscratch ≡ s.csr_mscratch
  pub mepc : t.csr_m_exception_pc ≡ s.csr_m_exception_pc
  pub mcause : t.csr_machine_cause ≡ s.csr_machine_cause
  pub mtval : t.csr_machine_trap_val ≡ s.csr_machine_trap_val
  pub mcycle : t.csr_m_cycle_num ≡ s.csr_m_cycle_num
  pub misa : t.csr_machine_isa ≡ s.csr_machine_isa
  pub minstret : t.minstret ≡ s.minstret
  pub hart_id : t.rv_hart_id ≡ s.rv_hart_id
  pub mie_field : get_field MStatus.mie t.status ≡ get_field MStatus.mie s.status
  pub mpie_field : get_field MStatus.mpie t.status ≡ get_field MStatus.mpie s.status
  pub mpp_field : get_field MStatus.mpp t.status ≡ get_field MStatus.mpp s.status
  pub mprv_field : get_field MStatus.mprv t.status ≡ get_field MStatus.mprv s.status
  pub tvm_field : get_field MStatus.tvm t.status ≡ get_field MStatus.tvm s.status
  pub tsr_field : get_field MStatus.tsr t.status ≡ get_field MStatus.tsr s.status
  pub tw_field : get_field MStatus.tw t.status ≡ get_field MStatus.tw s.status
  pub status : (i : ℕ) → is_s_status_bit i ≡ false → test_bit t.status i ≡ test_bit s.status i
  pub enable :
      (i : ℕ)
      → i < 64
      → test_bit s_mode_int_mask i ≡ false
      → test_bit t.csr_int_enable i ≡ test_bit s.csr_int_enable i
  pub pending :
      (i : ℕ)
      → i < 64
      → test_bit s_mode_int_mask i ≡ false
      → test_bit t.csr_int_pending i ≡ test_bit s.csr_int_pending i

merge_kept :
    (v old i : ℕ)
    → i < 64
    → test_bit s_mode_int_mask i ≡ false
    → test_bit (merge s_mode_int_mask v old) i ≡ test_bit old i
unfolding merge
merge_kept v old i l h = ground (
  arith,
  test_bit-or (bit_and old (bit_not s_mode_int_mask)) (bit_and v s_mode_int_mask) i,
  test_bit-and old (bit_not s_mode_int_mask) i,
  test_bit-and v s_mode_int_mask i,
  test_bit-not s_mode_int_mask i (omega arith) l,
)

-- A write of sstatus keeps the bits that are not supervisor mode's.
status_bit_kept :
    (v : ℕ) (s : Rv64Core) {t : Rv64Core}
    → csr_write RvCsrAddr.sstatus v s ≡ written t
    → (i : ℕ) → is_s_status_bit i ≡ false
    → test_bit t.status i ≡ test_bit s.status i
unfolding test_bit get_field
status_bit_kept v s w i other =
    let off : all_apart (field i 1) (sstatus_fields_1 ++ sstatus_fields_2) ≡ true = ground arith in
    ap (λ (b : ℕ). b == 1) (csr_write-field_kept RvCsrAddr.sstatus v (field i 1) s w off)

supervisor_status :
    (v : ℕ) (s : Rv64Core) {t : Rv64Core}
    → csr_write RvCsrAddr.sstatus v s ≡ written t
    → SameMachine s t
unfolding csr_write
supervisor_status v s w = ground (
  arith,
  csr_write-field_kept RvCsrAddr.sstatus v MStatus.mie s w refl,
  csr_write-field_kept RvCsrAddr.sstatus v MStatus.mpie s w refl,
  csr_write-field_kept RvCsrAddr.sstatus v MStatus.mpp s w refl,
  csr_write-field_kept RvCsrAddr.sstatus v MStatus.mprv s w refl,
  csr_write-field_kept RvCsrAddr.sstatus v MStatus.tvm s w refl,
  csr_write-field_kept RvCsrAddr.sstatus v MStatus.tsr s w refl,
  csr_write-field_kept RvCsrAddr.sstatus v MStatus.tw s w refl,
  status_bit_kept v s w,
)

supervisor_write :
    (c : RvCsrAddr) (v : ℕ) (s : Rv64Core) {t : Rv64Core}
    → s.current_priv_mode ≡ PrivMode.s_mode
    → csr_op_permission_check (csr_index c) true s ≡ true
    → csr_write c v s ≡ written t
    → SameMachine s t
unfolding csr_index csr_op_permission_check csr_write
supervisor_write RvCsrAddr.sstatus v s u h w = supervisor_status v s w
supervisor_write RvCsrAddr.mstatus v s u h w = ground arith
supervisor_write RvCsrAddr.sie v s u h w = ground (arith, merge_kept v s.csr_int_enable)
supervisor_write RvCsrAddr.sip v s u h w = ground (arith, merge_kept v s.csr_int_pending)
supervisor_write c v s u h w = ground arith

-- Supervisor mode cannot reach the state of machine mode: whatever index it names and whatever
-- value it writes, if the permission check passes and the write succeeds, the registers of machine
-- mode, every bit of the status word but sie, spie, spp, sum and mxr, and the bits of the interrupt
-- registers that are not supervisor mode's stay as they were.
pub csr_write_supervisor :
    (i v : ℕ) (s : Rv64Core) {t : Rv64Core}
    → s.current_priv_mode ≡ PrivMode.s_mode
    → csr_op_permission_check i true s ≡ true
    → csr_write (to_csr_addr i) v s ≡ written t
    → SameMachine s t
csr_write_supervisor i v s u h w =
    supervisor_write (to_csr_addr i) v s u (rw (csr_index-to_csr_addr i) h) w
