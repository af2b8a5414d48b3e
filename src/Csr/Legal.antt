-- ===== src/Csr/Legal.antt =====
-- What every CSR holds between instructions: no bit outside the mask of its register, no reserved
-- trap-vector or translation mode.
use m_emu.Base.{inl, refl, ℕ, ◌+◌, ◌^◌, ◌≤◌, ◌≡◌, ◌⊎◌, true, bit_and, bit_or, arith}
use m_emu.Rv64.Reset.{reset}
use m_emu.Words.{
  test_bit-zero_word, get_field, bit_not, test_bit, test_bit-and, test_bit-or, get-set_self,
}
use m_emu.Rv64.{Rv64Core, s_mode_int_mask, m_mode_int_mask, s_mode_exc_mask, counter_mask}
use m_emu.Rv64.TrapVector
use m_emu.Rv64.Satp
use m_emu.Csr.Addr.{RvCsrAddr}
use m_emu.Csr.Access.{
  CsrOutcome, written, refused, aborted, csr_write, merge, stvec_value, satp_value,
}

unfoldable pub IsWithin : ℕ → ℕ → Type 0
IsWithin mask x = (i : ℕ) → test_bit x i ≡ true → test_bit mask i ≡ true

pub bit_and-IsWithin : (x mask : ℕ) → IsWithin mask (bit_and x mask)
unfolding IsWithin
bit_and-IsWithin x mask i h = ground (arith, test_bit-and x mask i)

s_mask-IsWithin : IsWithin m_mode_int_mask s_mode_int_mask
unfolding IsWithin
s_mask-IsWithin i h =
    let e : m_mode_int_mask ≡ bit_or s_mode_int_mask (2 ^ 11 + 2 ^ 3 + 2 ^ 7) = refl in
    rw e (ground (arith, test_bit-or s_mode_int_mask (2 ^ 11 + 2 ^ 3 + 2 ^ 7) i))

pub merge-IsWithin :
    (new old : ℕ)
    → IsWithin m_mode_int_mask old
    → IsWithin m_mode_int_mask (merge s_mode_int_mask new old)
unfolding merge IsWithin
merge-IsWithin new old h i e = ground (
  arith,
  h i,
  s_mask-IsWithin i,
  test_bit-or (bit_and old (bit_not s_mode_int_mask)) (bit_and new s_mode_int_mask) i,
  test_bit-and old (bit_not s_mode_int_mask) i,
  test_bit-and new s_mode_int_mask i,
)

pub record IsLegal (s : Rv64Core) : Type 0 where
  pub mideleg : IsWithin s_mode_int_mask s.csr_m_int_delegation
  pub medeleg : IsWithin s_mode_exc_mask s.csr_m_exception_delegation
  pub mie : IsWithin m_mode_int_mask s.csr_int_enable
  pub mip : IsWithin m_mode_int_mask s.csr_int_pending
  pub mcounteren : IsWithin counter_mask s.csr_m_counter_en
  pub scounteren : IsWithin counter_mask s.csr_s_counter_en
  pub mtvec : get_field TrapVector.mode s.csr_m_trap_vec_base_addr ≤ 1
  pub stvec : get_field TrapVector.mode s.csr_s_trap_vec_base_addr ≤ 1
  pub satp_mode : (get_field Satp.mode s.satp ≡ 0) ⊎ (get_field Satp.mode s.satp ≡ 8)

-- The predicate `P` of the state that a call leaves, if it leaves one.
abbrev pub Writes : (Rv64Core → Type 0) → CsrOutcome → Type 0
Writes P (written t) = P t
Writes P refused = Unit {0}
Writes P aborted = Unit {0}

stvec_value-mode : (v : ℕ) → get_field TrapVector.mode (stvec_value v) ≤ 1
stvec_value-mode v = ground (arith, get-set_self TrapVector.mode 0 v)

satp_value-mode :
    (v : ℕ) → (get_field Satp.mode (satp_value v) ≡ 0) ⊎ (get_field Satp.mode (satp_value v) ≡ 8)
satp_value-mode v = ground (arith, get-set_self Satp.mode 0 v)

-- Whatever value is written to whatever CSR, the registers stay legal.
pub csr_write-IsLegal :
    (c : RvCsrAddr) (v : ℕ) (s : Rv64Core) → IsLegal s → Writes IsLegal (csr_write c v s)
unfolding csr_write
csr_write-IsLegal RvCsrAddr.mstatus v s h = ground (arith, h)
csr_write-IsLegal RvCsrAddr.sstatus v s h = ground (arith, h)
csr_write-IsLegal RvCsrAddr.mtvec v s h = ground (arith, h)
csr_write-IsLegal RvCsrAddr.stvec v s h = ground (arith, stvec_value-mode v)
csr_write-IsLegal RvCsrAddr.satp v s h = ground (arith, satp_value-mode v)
csr_write-IsLegal c v s h = search (bit_and-IsWithin, merge-IsWithin)

zero-IsWithin : (mask : ℕ) → IsWithin mask 0
unfolding IsWithin
zero-IsWithin mask i h = ground (arith, test_bit-zero_word i)

-- The registers are legal after reset.
pub reset-IsLegal : (s : Rv64Core) → IsLegal (reset s)
unfolding reset get_field
reset-IsLegal s = record {
  mideleg = zero-IsWithin _;
  medeleg = zero-IsWithin _;
  mie = zero-IsWithin _;
  mip = zero-IsWithin _;
  mcounteren = zero-IsWithin _;
  scounteren = zero-IsWithin _;
  mtvec = omega arith;
  stvec = omega arith;
  satp_mode = inl refl;
}
