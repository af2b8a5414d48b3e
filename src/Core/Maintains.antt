-- ===== src/Core/Maintains.antt =====
-- Properties of the hart that every instruction keeps: what such a property needs, and one rule for
-- each way to build an action.
use m_emu.Base.{ℕ, ◌≡◌, refl, subst, arith, Bool, true, false, Option, none, some, if◌then◌else◌}
use m_emu.Rv64.{Rv64Core, ExecFeedback}
use m_emu.Rv64.Reset.{set_gpr, write_program_counter}
use m_emu.Csr.{to_csr_addr, written, csr_write, csr_op_permission_check}
use m_emu.Trap.{CsRegCause, exception, raise_trap, ecall, ebreak, mret, sret}
use m_emu.Mmu.{sfence_vma, flush_tlb}
use m_emu.Mmu.Frame.{IgnoresMmu, Leaves, with_mmu}
use m_emu.Core.Exec.{
  changed, attempted, accessed, continue, Hart, Action, Outcome, pure, checked, gets, change,
  or_illegal, mmu, ◌>>=◌, set_register, set_pc, raise,
}
use m_emu.Core.Step.{retire}

-- A property of the hart that its registers, the program counter, the MMU, a trap, a permitted
-- write of a CSR and the return instructions do not break.
pub record Stable (P : Rv64Core → Type 0) : Type 0 where
  pub ignores_mmu : IgnoresMmu P
  pub on_gpr : (i v : ℕ) (s t : Rv64Core) → set_gpr i v s ≡ some t → P s → P t
  pub on_pc : (v : ℕ) (s : Rv64Core) → P s → P (write_program_counter v s)
  pub on_trap :
      (cause : CsRegCause) (tval : ℕ) (s t : Rv64Core)
      → raise_trap cause tval s ≡ some t
      → P s
      → P t
  pub on_csr :
      (i v : ℕ) (s t : Rv64Core)
      → csr_op_permission_check i true s ≡ true
      → csr_write (to_csr_addr i) v s ≡ written t
      → P s
      → P t
  pub on_mret : (s t : Rv64Core) → mret s ≡ some t → P s → P t
  pub on_sret : (s t : Rv64Core) → sret s ≡ some t → P s → P t
  pub on_retire : (outcome : Outcome) (inst : ℕ) (s : Rv64Core) → P s → P (retire outcome inst s)

abbrev pub After : {S A : Type 0} → (Rv64Core → Type 0) → Option (Hart S × A) → Type 0
After P none = Unit {0}
After P (some (h, a)) = P h.core

-- Whenever the action returns, what held of the hart before holds after it.
pub record Maintains {S A : Type 0} (P : Rv64Core → Type 0) (act : Action S A) : Type 0 where
  pub holds : (start : Hart S) → P start.core → After P (act start)

module _ {S A : Type 0} (P : Rv64Core → Type 0) where
  chain-After :
      {B : Type 0} (rest : A → Action S B) (o : Option (Hart S × A))
      → After P o
      → ((a : A) → Maintains P (rest a))
      → After P (continue rest o)
  chain-After rest none before each = tt
  chain-After rest (some (middle, a)) before each = (each a).holds middle before

module _ {S : Type 0} {P : Rv64Core → Type 0} {A : Type 0} where
  pub Maintains-bind :
      {B : Type 0} (act : Action S A) (rest : A → Action S B)
      → Maintains P act
      → ((a : A) → Maintains P (rest a))
      → Maintains P (act >>= rest)
  unfolding ◌>>=◌
  Maintains-bind act rest first each = record {
    holds = λ start before. chain-After P rest (act start) (first.holds start before) each;
  }

  pub Maintains-checked : (assertion : Option A) → Maintains {S = S} P (checked assertion)
  unfolding checked
  Maintains-checked (some value) = record { holds = λ start before. before }
  Maintains-checked none = record { holds = λ start before. tt }

  pub Maintains-if :
      (test : Bool) (then_act else_act : Action S A)
      → Maintains P then_act
      → Maintains P else_act
      → Maintains P (if test then then_act else else_act)
  Maintains-if false then_act else_act left right = right
  Maintains-if true then_act else_act left right = left

  pub Maintains-gets : (view : Rv64Core → A) → Maintains {S = S} P (gets view)
  unfolding gets
  Maintains-gets view = record { holds = λ start before. before }

  pub Maintains-pure : (value : A) → Maintains {S = S} P (pure value)
  unfolding pure
  Maintains-pure value = record { holds = λ start before. before }

module _ {S : Type 0} {P : Rv64Core → Type 0} where
  pub Maintains-change :
      (f : Rv64Core → Option Rv64Core)
      → ((s t : Rv64Core) → f s ≡ some t → P s → P t)
      → Maintains {S = S} P (change f)
  unfolding change
  Maintains-change f k = record { holds = λ h p. next h.mem (f h.core) (λ t e. k h.core t e p) }
    where
      next :
          (mem : S) (o : Option Rv64Core)
          → ((t : Rv64Core) → o ≡ some t → P t)
          → After P (changed mem o)
      next mem none q = tt
      next mem (some t) q = q t refl

  pub Maintains-or_illegal :
      (f : Rv64Core → Option Rv64Core)
      → ((s t : Rv64Core) → f s ≡ some t → P s → P t)
      → Maintains {S = S} P (or_illegal f)
  unfolding or_illegal
  Maintains-or_illegal f k = record { holds = λ h p. next h (f h.core) p (λ t e. k h.core t e p) }
    where
      next :
          (h : Hart S) (o : Option Rv64Core)
          → P h.core
          → ((t : Rv64Core) → o ≡ some t → P t)
          → After P (attempted h o)
      next h none p q = p
      next h (some t) p q = q t refl

module _ {S A : Type 0} {P : Rv64Core → Type 0} where
  -- A change that establishes the property, and actions that keep it.
  pub change_then-After :
      (f : Rv64Core → Option Rv64Core) (g : Unit {0} → Action S A) (h : Hart S)
      → ((t : Rv64Core) → f h.core ≡ some t → P t)
      → Maintains P (g tt)
      → After P ((change f >>= g) h)
  unfolding change ◌>>=◌
  change_then-After f g h k keeps = next (f h.core) k
    where
      next :
          (o : Option Rv64Core)
          → ((t : Rv64Core) → o ≡ some t → P t)
          → After P (continue g (changed h.mem o))
      next none q = tt
      next (some t) q = keeps.holds (record { core = t; mem = h.mem }) (q t refl)

module _ {S F A : Type 0} {P : Rv64Core → Type 0} where
  pub Maintains-mmu :
      (f : Rv64Core → S → Option (Rv64Core × S × F × A))
      → ((s : Rv64Core) (mem : S) → P s → Leaves P (f s mem))
      → Maintains P (mmu f)
  unfolding mmu
  Maintains-mmu f k = record { holds = λ h p. next (f h.core h.mem) (k h.core h.mem p) }
    where
      next : (o : Option (Rv64Core × S × F × A)) → Leaves P o → After P (accessed o)
      next none q = tt
      next (some (s, mem, x, a)) q = q

pub ruleset action_rules =
    (Maintains-pure, Maintains-checked, Maintains-gets, Maintains-if, Maintains-bind)

module _ {S : Type 0} {P : Rv64Core → Type 0} (stable : Stable P) where
  pub Maintains-set_register : (i v : ℕ) → Maintains {S = S} P (set_register i v)
  Maintains-set_register i v = Maintains-change (set_gpr i v) (stable.on_gpr i v)

  pub Maintains-set_pc : (v : ℕ) → Maintains {S = S} P (set_pc v)
  Maintains-set_pc v =
      Maintains-change _
        (λ s t e p. let q : write_program_counter v s ≡ t = cc in subst P q (stable.on_pc v s p))

  pub Maintains-raise : (e : ExecFeedback) (tval : ℕ) → Maintains {S = S} P (raise e tval)
  Maintains-raise e tval = Maintains-change _ (stable.on_trap (exception e) tval)

  pub Maintains-ecall : Maintains {S = S} P (change ecall)
  unfolding ecall
  Maintains-ecall = Maintains-change ecall (λ s. stable.on_trap _ 0 s)

  pub Maintains-ebreak : Maintains {S = S} P (change ebreak)
  unfolding ebreak
  Maintains-ebreak = Maintains-change ebreak (stable.on_trap _ 0)

  pub Maintains-sfence_vma :
      (vaddr asid : ℕ) → Maintains {S = S} P (or_illegal (sfence_vma vaddr asid))
  unfolding sfence_vma
  Maintains-sfence_vma vaddr asid = Maintains-or_illegal (sfence_vma vaddr asid) (λ s t e p.
      let q : with_mmu (flush_tlb vaddr asid s.sv39_mmu) s ≡ t = fenced s t e in
      subst P q (stable.ignores_mmu.at s _ p))
    where
      fenced :
          (s t : Rv64Core)
          → sfence_vma vaddr asid s ≡ some t
          → with_mmu (flush_tlb vaddr asid s.sv39_mmu) s ≡ t
      fenced s t e = ground arith

pub ruleset hart_rules = (
  action_rules, Maintains-set_register, Maintains-set_pc, Maintains-raise, Maintains-ecall,
  Maintains-ebreak, Maintains-sfence_vma,
)
