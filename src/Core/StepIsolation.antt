-- ===== src/Core/StepIsolation.antt =====
-- A step in a lower privilege mode leaves the configuration of machine mode alone.
use m_emu.Base.{ℕ, ◌<◌, ◌≡◌, ◌⊎◌, inl, inr, refl, sym, ap, ◌∙◌, subst, true, false, some, arith}
use m_emu.Words.{test_bit}
use m_emu.Rv64.{PrivMode, Rv64Core, s_mode_int_mask}
use m_emu.Rv64.Reset.{set_gpr, write_program_counter}
use m_emu.Csr.{to_csr_addr, written, csr_write, csr_op_permission_check}
use m_emu.Csr.Isolation.{SameMachine, csr_write_user, csr_write_supervisor}
use m_emu.Trap.{CsRegCause, raise_trap, mret, sret, update_csrs, pre_exec}
use m_emu.Mmu.{SysBus}
use m_emu.Core.Exec.{Hart, Outcome}
use m_emu.Core.Step.{retire, step}
use m_emu.Core.Maintains.{Stable}
use m_emu.Core.PreservesCompressed.{step-Maintains}
use m_emu.Core.Invariants.{Trapped, raise_trap-Trapped, csr_write-gpr, after_step, pre_exec-Came}

-- User or supervisor mode.
abbrev pub IsLower : PrivMode → Type 0
IsLower p = (p ≡ PrivMode.u_mode) ⊎ (p ≡ PrivMode.s_mode)

-- What only machine mode sets: where its traps go, which traps it passes down, the counters it
-- lets through, its scratch register, its interrupt enables.
pub record SameConfiguration (s t : Rv64Core) : Type 0 where
  pub mideleg : t.csr_m_int_delegation ≡ s.csr_m_int_delegation
  pub medeleg : t.csr_m_exception_delegation ≡ s.csr_m_exception_delegation
  pub mtvec : t.csr_m_trap_vec_base_addr ≡ s.csr_m_trap_vec_base_addr
  pub mcounteren : t.csr_m_counter_en ≡ s.csr_m_counter_en
  pub mscratch : t.csr_mscratch ≡ s.csr_mscratch
  pub enable :
      (i : ℕ)
      → i < 64
      → test_bit s_mode_int_mask i ≡ false
      → test_bit t.csr_int_enable i ≡ test_bit s.csr_int_enable i

abbrev IsLowerSame : Rv64Core → Rv64Core → Type 0
IsLowerSame s t = IsLower t.current_priv_mode × SameConfiguration s t

SameConfiguration-trans :
    {s t u : Rv64Core} → SameConfiguration s t → SameConfiguration t u → SameConfiguration s u
SameConfiguration-trans a b = record {
  mideleg = b.mideleg ∙ a.mideleg;
  medeleg = b.medeleg ∙ a.medeleg;
  mtvec = b.mtvec ∙ a.mtvec;
  mcounteren = b.mcounteren ∙ a.mcounteren;
  mscratch = b.mscratch ∙ a.mscratch;
  enable = λ i l h. b.enable i l h ∙ a.enable i l h;
}

-- The mode and the registers above, all the same.
record SameControl (s t : Rv64Core) : Type 0 where
  mode : t.current_priv_mode ≡ s.current_priv_mode
  mideleg : t.csr_m_int_delegation ≡ s.csr_m_int_delegation
  medeleg : t.csr_m_exception_delegation ≡ s.csr_m_exception_delegation
  mtvec : t.csr_m_trap_vec_base_addr ≡ s.csr_m_trap_vec_base_addr
  mcounteren : t.csr_m_counter_en ≡ s.csr_m_counter_en
  mscratch : t.csr_mscratch ≡ s.csr_mscratch
  mie : t.csr_int_enable ≡ s.csr_int_enable

SameControl-SameConfiguration : {s t : Rv64Core} → SameControl s t → SameConfiguration s t
SameControl-SameConfiguration t = record {
  mideleg = t.mideleg;
  medeleg = t.medeleg;
  mtvec = t.mtvec;
  mcounteren = t.mcounteren;
  mscratch = t.mscratch;
  enable = λ i l h. ap (λ w. test_bit w i) t.mie;
}

raise_trap-SameControl :
    (c : CsRegCause) (v : ℕ) (s t : Rv64Core) → raise_trap c v s ≡ some t → SameControl s t
raise_trap-SameControl c v s t e =
    let w : Trapped s t = raise_trap-Trapped c v s t e in
    record {
      mode = w.mode;
      mideleg = w.mideleg;
      medeleg = w.medeleg;
      mtvec = w.mtvec;
      mcounteren = w.mcounteren;
      mscratch = w.mscratch;
      mie = w.mie;
    }

set_gpr-SameControl : (i v : ℕ) (s t : Rv64Core) → set_gpr i v s ≡ some t → SameControl s t
unfolding set_gpr
set_gpr-SameControl i v s t e = ground arith

sret-SameControl : (s t : Rv64Core) → sret s ≡ some t → SameControl s t
unfolding sret
sret-SameControl s t e = ground arith

retire-SameControl : (o : Outcome) (inst : ℕ) (s : Rv64Core) → SameControl s (retire o inst s)
unfolding retire
retire-SameControl o inst s = ground arith

pc-SameControl : (v : ℕ) (s : Rv64Core) → SameControl s (write_program_counter v s)
unfolding write_program_counter
pc-SameControl v s = ground arith

-- A lower mode cannot return from machine mode.
mret_lower : (s t : Rv64Core) → IsLower s.current_priv_mode → mret s ≡ some t → ⊥
unfolding mret
mret_lower s t (inl u) e = ground arith
mret_lower s t (inr u) e = ground arith

SameMachine-SameConfiguration : {s t : Rv64Core} → SameMachine s t → SameConfiguration s t
SameMachine-SameConfiguration m = record {
  mideleg = m.mideleg;
  medeleg = m.medeleg;
  mtvec = m.mtvec;
  mcounteren = m.mcounteren;
  mscratch = m.mscratch;
  enable = m.enable;
}

csr-SameConfiguration :
    (i v : ℕ) (s t : Rv64Core)
    → IsLower s.current_priv_mode
    → csr_op_permission_check i true s ≡ true
    → csr_write (to_csr_addr i) v s ≡ written t
    → SameConfiguration s t
csr-SameConfiguration i v s t (inl u) p e = absurd (let r = csr_write_user i v s u p in grind arith)
csr-SameConfiguration i v s t (inr m) p e =
    SameMachine-SameConfiguration (csr_write_supervisor i v s m p e)

module _ (s0 : Rv64Core) where
  move : {s t : Rv64Core} → SameControl s t → IsLowerSame s0 s → IsLowerSame s0 t
  move {s} {t} c h = (
    subst IsLower (sym c.mode) h.0,
    SameConfiguration-trans h.1 (SameControl-SameConfiguration c),
  )

  IsLowerSame-Stable : Stable (IsLowerSame s0)
  IsLowerSame-Stable = record {
    ignores_mmu = record {
      at = λ s m h.
          move
            (record {
              mode = refl;
              mideleg = refl;
              medeleg = refl;
              mtvec = refl;
              mcounteren = refl;
              mscratch = refl;
              mie = refl;
            })
            h;
    };
    on_gpr = λ i v s t e. move (set_gpr-SameControl i v s t e);
    on_pc = λ v s. move (pc-SameControl v s);
    on_trap = λ c v s t e. move (raise_trap-SameControl c v s t e);
    on_csr = λ i v s t p e h. (
      subst IsLower (sym (csr_write-gpr (to_csr_addr i) v s t e).1) h.0,
      SameConfiguration-trans h.1 (csr-SameConfiguration i v s t h.0 p e),
    );
    on_mret = λ s t e h. absurd (mret_lower s t h.0 e);
    on_sret = λ s t e. move (sret-SameControl s t e);
    on_retire = λ o inst s. move (retire-SameControl o inst s);
  }

-- The check enters the mode that the last instruction left, and changes no configuration.
update_csrs-IsLowerSame : (s : Rv64Core) → IsLower s.next_priv_mode → IsLowerSame s (update_csrs s)
unfolding update_csrs
update_csrs-IsLowerSame s l = (
  l,
  record {
    mideleg = refl;
    medeleg = refl;
    mtvec = refl;
    mcounteren = refl;
    mscratch = refl;
    enable = λ i h k. refl;
  },
)

pre_exec-IsLowerSame :
    (s t : Rv64Core) → pre_exec s ≡ some t → IsLower s.next_priv_mode → IsLowerSame s t
pre_exec-IsLowerSame s t e l = elim (pre_exec-Came s t e) [
  | inl q ↦ let g : t ≡ update_csrs s = cc in rw g (update_csrs-IsLowerSame s l)
  | inr (c, q) ↦ move s (raise_trap-SameControl c 0 _ t q) (update_csrs-IsLowerSame s l)
]

-- One step from user or supervisor mode, whatever instruction it runs and whatever trap it takes,
-- leaves the configuration of machine mode as it was: delegation, trap vector, counter enables,
-- scratch register and the interrupt enables that are not those of supervisor mode.
pub step-SameConfiguration :
    {S : Type 0} (bus : SysBus S) (h : Hart S) {t : Hart S}
    → IsLower h.core.next_priv_mode
    → step bus h ≡ some (t, tt)
    → SameConfiguration h.core t.core
step-SameConfiguration bus h {t} l e =
    (after_step (IsLowerSame h.core) _ e (
      step-Maintains bus (IsLowerSame-Stable h.core) (λ s. IsLower s.next_priv_mode × (s ≡ h.core))
        (λ s u q k. let same = pre_exec-IsLowerSame s u q k.0 in rw k.1 at same) h (l, refl))).1
