-- ===== src/Csr/Effect.antt =====
-- What a write of a CSR stores: the value that is read back, the fields of the status word, the
-- interrupt bits that sie and sip let through, and when the emulator stops on an assertion.
use m_emu.Base.{
  [], ap, ◌∙◌, ◌++◌, ◌⊎◌, inl, inr, ℕ, ◌^◌, ◌≤◌, ◌<◌, ◌≡◌, ◌↔◌, true, Option, none, some, List,
  bit_and, bit_or, arith,
}
use m_emu.Words.{
  Field, get_field, bit_not, test_bit, test_bit-and, test_bit-or, test_bit-not, get-lt, u64_max,
  copy_fields, copies, all_apart, get-copy, get-copy_apart, bit_and-ones, word_ext, test_bit_of_lt,
}
use m_emu.Rv64.{Rv64Core, s_mode_int_mask, m_mode_int_mask, s_mode_exc_mask, counter_mask}
use m_emu.Rv64.MStatus
use m_emu.Rv64.SStatus
use m_emu.Rv64.TrapVector
use m_emu.Csr.Addr.{RvCsrAddr}
use m_emu.Csr.Access.{
  written, aborted, csr_read, csr_write, merge, mstatus_fields_1, mstatus_fields_2,
  sstatus_fields_1, sstatus_fields_2,
}

-- The bits that a register keeps, for those that keep them whatever they held before.
abbrev pub writable_mask : RvCsrAddr → Option ℕ
writable_mask RvCsrAddr.medeleg = some s_mode_exc_mask
writable_mask RvCsrAddr.mideleg = some s_mode_int_mask
writable_mask RvCsrAddr.mie = some m_mode_int_mask
writable_mask RvCsrAddr.mip = some m_mode_int_mask
writable_mask RvCsrAddr.mcounteren = some counter_mask
writable_mask RvCsrAddr.scounteren = some counter_mask
writable_mask RvCsrAddr.sie = some s_mode_int_mask
writable_mask RvCsrAddr.sip = some s_mode_int_mask
writable_mask RvCsrAddr.mscratch = some u64_max
writable_mask RvCsrAddr.mepc = some u64_max
writable_mask RvCsrAddr.mcause = some u64_max
writable_mask RvCsrAddr.mtval = some u64_max
writable_mask RvCsrAddr.mcycle = some u64_max
writable_mask RvCsrAddr.sscratch = some u64_max
writable_mask RvCsrAddr.sepc = some u64_max
writable_mask RvCsrAddr.scause = some u64_max
writable_mask RvCsrAddr.stval = some u64_max
writable_mask _ = none

-- Reading sie or sip shows the bits of the last write, whatever the other bits were.
merge-and :
    (v old : ℕ) → bit_and (merge s_mode_int_mask v old) s_mode_int_mask ≡ bit_and v s_mode_int_mask
unfolding merge
merge-and v old = word_ext _ _ λ i. bits i (lt_or_le i)
  where
    lt_or_le : (i : ℕ) → (i < 64) ⊎ (64 ≤ i)
    lt_or_le i = omega arith

    bits :
        (i : ℕ)
        → (i < 64) ⊎ (64 ≤ i)
        → test_bit
            (bit_and
              (bit_or (bit_and old (bit_not s_mode_int_mask)) (bit_and v s_mode_int_mask))
              s_mode_int_mask)
            i
          ≡ test_bit (bit_and v s_mode_int_mask) i
    bits i (inl l) = ground (
      arith,
      test_bit-and (bit_or (bit_and old (bit_not s_mode_int_mask)) (bit_and v s_mode_int_mask))
          s_mode_int_mask i,
      test_bit-or (bit_and old (bit_not s_mode_int_mask)) (bit_and v s_mode_int_mask) i,
      test_bit-and old (bit_not s_mode_int_mask) i,
      test_bit-and v s_mode_int_mask i,
      test_bit-not s_mode_int_mask i (omega arith) l,
    )
    bits i (inr g) = ground (
      arith,
      test_bit-and (bit_or (bit_and old (bit_not s_mode_int_mask)) (bit_and v s_mode_int_mask))
          s_mode_int_mask i,
      test_bit-and v s_mode_int_mask i,
      test_bit_of_lt 64 s_mode_int_mask i (omega arith) g,
    )

-- A register that keeps its bits whatever it held before reads back as the written value cut to
-- its mask.
pub csr_read-csr_write :
    (c : RvCsrAddr) (v : ℕ) {m : ℕ} (s : Rv64Core) {t : Rv64Core}
    → v < 2 ^ 64
    → writable_mask c ≡ some m
    → csr_write c v s ≡ written t
    → csr_read c t ≡ some (bit_and v m)
unfolding csr_read csr_write
csr_read-csr_write RvCsrAddr.sie v s lt e w = ground (arith, merge-and v s.csr_int_enable)
csr_read-csr_write RvCsrAddr.sip v s lt e w = ground (arith, merge-and v s.csr_int_pending)
csr_read-csr_write RvCsrAddr.cycle v s lt e w = cc
csr_read-csr_write c v s lt e w = ground (arith, bit_and-ones 64 v lt)

-- The fields of the status word that a write of each register takes over.
abbrev pub status_fields : RvCsrAddr → List Field
status_fields RvCsrAddr.mstatus = mstatus_fields_1 ++ mstatus_fields_2
status_fields RvCsrAddr.sstatus = sstatus_fields_1 ++ sstatus_fields_2
status_fields _ = []

-- The state of a status word after a write, as one list of assignments.
pub csr_write-status :
    (c : RvCsrAddr) (v : ℕ) (s : Rv64Core) {t : Rv64Core}
    → csr_write c v s ≡ written t
    → t.status ≡ copy_fields (status_fields c) v s.status
unfolding csr_write
csr_write-status RvCsrAddr.mstatus v s w = ground arith
csr_write-status RvCsrAddr.sstatus v s w = ground arith
csr_write-status c v s w = ground arith

-- A field that the write takes over has the value that it has in the written word.
pub csr_write-field :
    (c : RvCsrAddr) (v : ℕ) (g : Field) (s : Rv64Core) {t : Rv64Core}
    → csr_write c v s ≡ written t
    → copies g (status_fields c) ≡ true
    → get_field g t.status ≡ get_field g v
csr_write-field c v g s w h =
    ap (get_field g) (csr_write-status c v s w) ∙ get-copy g (status_fields c) v s.status h

-- A field that shares no bit with those keeps its value.
pub csr_write-field_kept :
    (c : RvCsrAddr) (v : ℕ) (g : Field) (s : Rv64Core) {t : Rv64Core}
    → csr_write c v s ≡ written t
    → all_apart g (status_fields c) ≡ true
    → get_field g t.status ≡ get_field g s.status
csr_write-field_kept c v g s w h =
    ap (get_field g) (csr_write-status c v s w) ∙ get-copy_apart g (status_fields c) v s.status h

-- Of the assertions in csr_write only the one on the mode of mtvec can fail.
pub csr_write-aborted_iff :
    (c : RvCsrAddr) (v : ℕ) (s : Rv64Core)
    → (csr_write c v s ≡ aborted) ↔ ((c ≡ RvCsrAddr.mtvec) × (1 < get_field TrapVector.mode v))
unfolding csr_write
csr_write-aborted_iff RvCsrAddr.mstatus v s = ground (
  arith,
  get-lt MStatus.spie (copy_fields mstatus_fields_1 v s.status),
  get-lt MStatus.mpie (copy_fields mstatus_fields_1 v s.status),
)
csr_write-aborted_iff RvCsrAddr.sstatus v s =
    ground (arith, get-lt SStatus.spie (copy_fields sstatus_fields_1 v s.status))
csr_write-aborted_iff c v s = ground arith
