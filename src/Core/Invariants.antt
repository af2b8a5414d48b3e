-- ===== src/Core/Invariants.antt =====
-- What a whole step keeps.
use m_emu.Base.{
  ℕ, ◌≡◌, ◌⊎◌, inl, inr, refl, ap, subst, Bool, true, false, Option, some, arith, if◌then◌else◌,
}
use m_emu.Rv64.{Rv64Core}
use m_emu.Rv64.Reset.{GprIsValid, set_gpr_lem, write_program_counter}
use m_emu.Csr.{RvCsrAddr, to_csr_addr, written, csr_write}
use m_emu.Trap.{
  CsRegCause, raise_trap, trap_to_s, trap_to_m, mret, sret, update_csrs, interrupt_m,
  interrupt_lower, check_interrupts, pre_exec,
}
use m_emu.Mmu.{SysBus}
use m_emu.Core.Exec.{Hart, Outcome}
use m_emu.Core.Step.{retire, step}
use m_emu.Core.Maintains.{Stable, After}
use m_emu.Core.PreservesCompressed.{step-Maintains}

-- What a trap writes.
pub record Trapped (s t : Rv64Core) : Type 0 where
  pub gpr : t.gpr ≡ s.gpr
  pub mode : t.current_priv_mode ≡ s.current_priv_mode
  pub mideleg : t.csr_m_int_delegation ≡ s.csr_m_int_delegation
  pub medeleg : t.csr_m_exception_delegation ≡ s.csr_m_exception_delegation
  pub mie : t.csr_int_enable ≡ s.csr_int_enable
  pub mip : t.csr_int_pending ≡ s.csr_int_pending
  pub mcounteren : t.csr_m_counter_en ≡ s.csr_m_counter_en
  pub scounteren : t.csr_s_counter_en ≡ s.csr_s_counter_en
  pub mtvec : t.csr_m_trap_vec_base_addr ≡ s.csr_m_trap_vec_base_addr
  pub stvec : t.csr_s_trap_vec_base_addr ≡ s.csr_s_trap_vec_base_addr
  pub satp : t.satp ≡ s.satp
  pub mscratch : t.csr_mscratch ≡ s.csr_mscratch
  pub misa : t.csr_machine_isa ≡ s.csr_machine_isa

pub raise_trap-Trapped :
    (cause : CsRegCause) (tval : ℕ) (s t : Rv64Core)
    → raise_trap cause tval s ≡ some t
    → Trapped s t
unfolding raise_trap trap_to_s trap_to_m
raise_trap-Trapped cause tval s t e = ground arith

-- What the check leaves: the state as it was, or what a trap makes of it.
abbrev pub Came : Rv64Core → Option Rv64Core → Type 0
Came u o = (o ≡ some u) ⊎ ((c : CsRegCause) × (raise_trap c 0 u ≡ o))

if-Came :
    (u : Rv64Core) (b : Bool) (x y : Option Rv64Core)
    → Came u x
    → Came u y
    → Came u (if b then x else y)
if-Came u true x y hx hy = hx
if-Came u false x y hx hy = hy

check_interrupts-Came : (u : Rv64Core) → Came u (check_interrupts u)
unfolding check_interrupts interrupt_m interrupt_lower
check_interrupts-Came u =
    let idle : Came u (some u) = inl refl in
    let trap : (c : CsRegCause) → Came u (raise_trap c 0 u) = λ c. inr (c, refl) in
    search (if-Came, idle, trap) depth 10

pub pre_exec-Came : (s t : Rv64Core) → pre_exec s ≡ some t → Came (update_csrs s) (some t)
unfolding pre_exec
pre_exec-Came s t e = subst (Came (update_csrs s)) e (check_interrupts-Came (update_csrs s))

-- A step that returns keeps what its parts keep.
pub after_step :
    {S : Type 0} (P : Rv64Core → Type 0) (o : Option (Hart S × Unit {0})) {t : Hart S}
    → o ≡ some (t, tt)
    → After P o
    → P t.core
after_step P o e a = subst (After P) e a

-- 32 registers, of which x0 reads 0.
GprIsValid-gpr : {s t : Rv64Core} → t.gpr ≡ s.gpr → GprIsValid s → GprIsValid t
GprIsValid-gpr {s} {t} e v = record { count = rw e v.count; x0 = rw e v.x0 }

mret-gpr : (s t : Rv64Core) → mret s ≡ some t → t.gpr ≡ s.gpr
unfolding mret
mret-gpr s t e = ground arith

sret-gpr : (s t : Rv64Core) → sret s ≡ some t → t.gpr ≡ s.gpr
unfolding sret
sret-gpr s t e = ground arith

retire-gpr : (o : Outcome) (inst : ℕ) (s : Rv64Core) → (retire o inst s).gpr ≡ s.gpr
unfolding retire
retire-gpr o inst s = ground arith

pub csr_write-gpr :
    (c : RvCsrAddr) (v : ℕ) (s t : Rv64Core)
    → csr_write c v s ≡ written t
    → (t.gpr ≡ s.gpr) × (t.current_priv_mode ≡ s.current_priv_mode)
unfolding csr_write
csr_write-gpr RvCsrAddr.mstatus v s t e = ground arith
csr_write-gpr RvCsrAddr.sstatus v s t e = ground arith
csr_write-gpr c v s t e = ground arith

GprIsValid-Stable : Stable GprIsValid
GprIsValid-Stable = record {
  ignores_mmu = record { at = λ s m v. record { count = v.count; x0 = v.x0 } };
  on_gpr = λ i v s t e h. (set_gpr_lem i 0 v s h e).0;
  on_pc = λ v s h. unfold write_program_counter in record { count = h.count; x0 = h.x0 };
  on_trap = λ c v s t e. GprIsValid-gpr (raise_trap-Trapped c v s t e).gpr;
  on_csr = λ i v s t p e. GprIsValid-gpr (csr_write-gpr (to_csr_addr i) v s t e).0;
  on_mret = λ s t e. GprIsValid-gpr (mret-gpr s t e);
  on_sret = λ s t e. GprIsValid-gpr (sret-gpr s t e);
  on_retire = λ o inst s. GprIsValid-gpr (retire-gpr o inst s);
}

pre_exec-GprIsValid : (s t : Rv64Core) → pre_exec s ≡ some t → GprIsValid s → GprIsValid t
unfolding update_csrs
pre_exec-GprIsValid s t e v = elim (pre_exec-Came s t e) [
  | inl q ↦ GprIsValid-gpr (let g : t ≡ update_csrs s = cc in ap (λ (u : Rv64Core). u.gpr) g) v
  | inr (c, q) ↦ GprIsValid-gpr (raise_trap-Trapped c 0 _ t q).gpr v
]

-- A step that returns keeps the 32 registers of the hart and the zero in x0, whatever instruction
-- it runs.
pub step-GprIsValid :
    {S : Type 0} (bus : SysBus S) (h : Hart S) {t : Hart S}
    → GprIsValid h.core
    → step bus h ≡ some (t, tt)
    → GprIsValid t.core
step-GprIsValid bus h v e =
    after_step GprIsValid _ e
      (step-Maintains bus GprIsValid-Stable GprIsValid pre_exec-GprIsValid h v)
