-- ===== src/Core/PreservesSystem.antt =====
-- The atomic and the SYSTEM instructions keep a property that their parts keep.
use m_emu.Base.{
  ℕ, ◌≡◌, refl, Bool, true, false, Option, none, some, List, if◌then◌else◌, Bool-cases, inl, inr,
  subst, arith, ◌==◌,
}
use m_emu.Rv64.{Rv64Core, ExecFeedback}
use m_emu.Rv64.Reset.{set_gpr}
use m_emu.Csr.{
  to_csr_addr, CsrOutcome, written, refused, aborted, csr_write, csr_op_permission_check,
}
use m_emu.Trap.{mret, sret}
use m_emu.Mmu.{
  SysBus, AmoFunct, vaddr_load_reserved, vaddr_store_conditional, vaddr_atomic_mem_operation,
}
use m_emu.Mmu.Frame.{
  vaddr_load_reserved-Leaves, vaddr_store_conditional-Leaves, vaddr_atomic_mem_operation-Leaves,
}
use m_emu.Core.Exec.{mmu, or_illegal}
use m_emu.Core.Atomic.{
  finish_amo, load_reserved, store_conditional, memory_operation, amo_switch, amo,
}
use m_emu.Core.System.{
  CsrOp, writes, keep_csr, Effect, done, csr_written, csr_permitted, csr_access, effect_at,
  access_csr, csr_register, csr_immediate, ecall_ebreak, sret_wfi, privileged, system,
}
use m_emu.Core.Maintains.{Stable, Maintains, After, hart_rules, Maintains-mmu, Maintains-or_illegal}

module _ {S : Type 0} (bus : SysBus S) {P : Rv64Core → Type 0} (stable : Stable P) where
  finish_amo-Maintains :
      (dest addr : ℕ) (r : ExecFeedback × Option ℕ) → Maintains {S = S} P (finish_amo dest addr r)
  unfolding finish_amo
  finish_amo-Maintains dest addr (ExecFeedback.instr_misalign, o) = search hart_rules
  finish_amo-Maintains dest addr (ExecFeedback.instr_acc_fault, o) = search hart_rules
  finish_amo-Maintains dest addr (ExecFeedback.illegal_instr, o) = search hart_rules
  finish_amo-Maintains dest addr (ExecFeedback.breakpoint, o) = search hart_rules
  finish_amo-Maintains dest addr (ExecFeedback.load_misalign, o) = search hart_rules
  finish_amo-Maintains dest addr (ExecFeedback.load_acc_fault, o) = search hart_rules
  finish_amo-Maintains dest addr (ExecFeedback.store_misalign, o) = search hart_rules
  finish_amo-Maintains dest addr (ExecFeedback.store_acc_fault, o) = search hart_rules
  finish_amo-Maintains dest addr (ExecFeedback.ecall_from_user, o) = search hart_rules
  finish_amo-Maintains dest addr (ExecFeedback.ecall_from_supervisor, o) = search hart_rules
  finish_amo-Maintains dest addr (ExecFeedback.ecall_from_machine, o) = search hart_rules
  finish_amo-Maintains dest addr (ExecFeedback.instr_pgfault, o) = search hart_rules
  finish_amo-Maintains dest addr (ExecFeedback.load_pgfault, o) = search hart_rules
  finish_amo-Maintains dest addr (ExecFeedback.store_pgfault, o) = search hart_rules
  finish_amo-Maintains dest addr (ExecFeedback.exec_ok, o) = search hart_rules

  lr-Maintains : (addr size : ℕ) → Maintains P (mmu (vaddr_load_reserved bus addr size))
  lr-Maintains addr size =
      Maintains-mmu _ (vaddr_load_reserved-Leaves bus stable.ignores_mmu addr size)

  sc-Maintains :
      (addr size : ℕ) (buf : List ℕ) → Maintains P (mmu (vaddr_store_conditional bus addr size buf))
  sc-Maintains addr size buf =
      Maintains-mmu _ (vaddr_store_conditional-Leaves bus stable.ignores_mmu addr size buf)

  operation-Maintains :
      (addr size : ℕ) (f : AmoFunct) (src : ℕ)
      → Maintains P (mmu (vaddr_atomic_mem_operation bus addr size f src))
  operation-Maintains addr size f src =
      Maintains-mmu _ (vaddr_atomic_mem_operation-Leaves bus stable.ignores_mmu addr size f src)

  load_reserved-Maintains : (inst size : ℕ) → Maintains P (load_reserved bus inst size)
  unfolding load_reserved
  load_reserved-Maintains inst size = search (hart_rules, lr-Maintains, finish_amo-Maintains)

  store_conditional-Maintains : (inst size : ℕ) → Maintains P (store_conditional bus inst size)
  unfolding store_conditional
  store_conditional-Maintains inst size = search (hart_rules, sc-Maintains, finish_amo-Maintains)

  memory_operation-Maintains :
      (inst size : ℕ) (f : AmoFunct) → Maintains P (memory_operation bus inst size f)
  unfolding memory_operation
  memory_operation-Maintains inst size f =
      search (hart_rules, operation-Maintains, finish_amo-Maintains)

  amo_switch-Maintains :
      (inst size : ℕ) (o : Option AmoFunct) → Maintains P (amo_switch bus inst size o)
  amo_switch-Maintains inst size none = search hart_rules
  amo_switch-Maintains inst size (some AmoFunct.amolr) =
      search (hart_rules, load_reserved-Maintains)
  amo_switch-Maintains inst size (some AmoFunct.amosc) = store_conditional-Maintains inst size
  amo_switch-Maintains inst size (some AmoFunct.amoswap) = memory_operation-Maintains inst size _
  amo_switch-Maintains inst size (some AmoFunct.amoadd) = memory_operation-Maintains inst size _
  amo_switch-Maintains inst size (some AmoFunct.amoxor) = memory_operation-Maintains inst size _
  amo_switch-Maintains inst size (some AmoFunct.amoand) = memory_operation-Maintains inst size _
  amo_switch-Maintains inst size (some AmoFunct.amoor) = memory_operation-Maintains inst size _
  amo_switch-Maintains inst size (some AmoFunct.amomin) = memory_operation-Maintains inst size _
  amo_switch-Maintains inst size (some AmoFunct.amomax) = memory_operation-Maintains inst size _
  amo_switch-Maintains inst size (some AmoFunct.amominu) = memory_operation-Maintains inst size _
  amo_switch-Maintains inst size (some AmoFunct.amomaxu) = memory_operation-Maintains inst size _

  pub amo-Maintains : (inst : ℕ) → Maintains P (amo bus inst)
  unfolding amo
  amo-Maintains inst = search (hart_rules, amo_switch-Maintains)

module _ {P : Rv64Core → Type 0} (stable : Stable P) where
  -- A CSR access keeps the property whether it reads, writes or is illegal.
  abbrev MaintainsEffect : Effect → Type 0
  MaintainsEffect none = Unit {0}
  MaintainsEffect (some (s, o)) = P s

  done-Maintains :
      (o : Option Rv64Core) → ((t : Rv64Core) → o ≡ some t → P t) → MaintainsEffect (done o)
  done-Maintains none k = tt
  done-Maintains (some t) k = k t refl

  keep_csr-Maintains : (dest old : ℕ) (s t : Rv64Core) → P s → keep_csr dest old s ≡ some t → P t
  keep_csr-Maintains dest old s t p e = elim (Bool-cases (dest == 0)) [
    | inl z ↦ let q : s ≡ t = ground arith in subst P q p
    | inr nz ↦ let q : set_gpr dest old s ≡ some t = ground arith in stable.on_gpr dest old s t q p
  ]

  csr_written-Maintains :
      (dest old : ℕ) (s : Rv64Core) (o : CsrOutcome)
      → P s
      → ((t : Rv64Core) → o ≡ written t → P t)
      → MaintainsEffect (csr_written dest old s o)
  csr_written-Maintains dest old s (written t) p k =
      done-Maintains _ (λ u e. keep_csr-Maintains dest old t u (k t refl) e)
  csr_written-Maintains dest old s refused p k = p
  csr_written-Maintains dest old s aborted p k = tt

  write-Maintains :
      (writing : Bool) (index v : ℕ) (s t : Rv64Core)
      → P s
      → csr_op_permission_check index writing s ≡ true
      → (if writing then csr_write (to_csr_addr index) v s else written s) ≡ written t
      → P t
  write-Maintains true index v s t p c e = stable.on_csr index v s t c e p
  write-Maintains false index v s t p c e = let q : s ≡ t = cc in subst P q p

  csr_permitted-Maintains :
      (kind : CsrOp) (index dest source operand : ℕ) (s : Rv64Core) (o : Option ℕ)
      → P s
      → csr_op_permission_check index (writes kind source) s ≡ true
      → MaintainsEffect (csr_permitted kind index dest source operand s o)
  csr_permitted-Maintains kind index dest source operand s none p c = p
  csr_permitted-Maintains kind index dest source operand s (some old) p c =
      csr_written-Maintains dest old s _ p
        (λ t e. write-Maintains (writes kind source) index _ s t p c e)

  csr_access-Maintains :
      (kind : CsrOp) (index dest source operand : ℕ) (s : Rv64Core)
      → P s
      → MaintainsEffect (csr_access kind index dest source operand s)
  unfolding csr_access
  csr_access-Maintains kind index dest source operand s p =
      elim (Bool-cases (csr_op_permission_check index (writes kind source) s)) [
        | inl c ↦ rw c (csr_permitted-Maintains kind index dest source operand s _ p c)
        | inr c ↦ rw c p
      ]

module _ {S : Type 0} {P : Rv64Core → Type 0} (stable : Stable P) where
  effect_at-Maintains :
      (mem : S) (e : Effect) → MaintainsEffect stable e → After P (effect_at mem e)
  effect_at-Maintains mem none k = tt
  effect_at-Maintains mem (some (s, o)) k = k

  access_csr-Maintains :
      (kind : CsrOp) (inst operand : ℕ) → Maintains {S = S} P (access_csr kind inst operand)
  unfolding access_csr
  access_csr-Maintains kind inst operand = record {
    holds = λ h p.
        effect_at-Maintains h.mem _ (csr_access-Maintains stable kind _ _ _ operand h.core p);
  }

  csr_register-Maintains : (kind : CsrOp) (inst : ℕ) → Maintains {S = S} P (csr_register kind inst)
  unfolding csr_register
  csr_register-Maintains kind inst = search (hart_rules, access_csr-Maintains)

  csr_immediate-Maintains :
      (kind : CsrOp) (inst : ℕ) → Maintains {S = S} P (csr_immediate kind inst)
  unfolding csr_immediate
  csr_immediate-Maintains kind inst = access_csr-Maintains kind inst _

  ecall_ebreak-Maintains : (inst : ℕ) → Maintains {S = S} P (ecall_ebreak inst)
  unfolding ecall_ebreak
  ecall_ebreak-Maintains inst = search hart_rules depth 8

  sret-Maintains : Maintains {S = S} P (or_illegal sret)
  sret-Maintains = Maintains-or_illegal sret stable.on_sret

  mret-Maintains : Maintains {S = S} P (or_illegal mret)
  mret-Maintains = Maintains-or_illegal mret stable.on_mret

  sret_wfi-Maintains : (inst : ℕ) → Maintains {S = S} P (sret_wfi inst)
  unfolding sret_wfi
  sret_wfi-Maintains inst = search (hart_rules, sret-Maintains) depth 8

  privileged-Maintains : (inst : ℕ) → Maintains {S = S} P (privileged inst)
  unfolding privileged
  privileged-Maintains inst =
      search (hart_rules, ecall_ebreak-Maintains, sret_wfi-Maintains, mret-Maintains) depth 12

  pub system-Maintains : (inst : ℕ) → Maintains {S = S} P (system inst)
  unfolding system
  system-Maintains inst =
      search (hart_rules, privileged-Maintains, csr_register-Maintains, csr_immediate-Maintains)
        depth 12
