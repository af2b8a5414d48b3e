-- ===== src/Core/StepUnchecked.antt =====
-- Step_CoreAPI does the same without its five assertions.
use m_emu.Base.{ℕ, ◌≡◌, refl, true, Option, none, some, arith, if◌then◌else◌}
use m_emu.Words.{Field, all_apart}
use m_emu.Rv64.{Rv64Core}
use m_emu.Rv64.MStatus
use m_emu.Csr.{RvCsrAddr}
use m_emu.Csr.Effect.{status_fields}
use m_emu.Trap.{pre_exec}
use m_emu.Mmu.{SysBus}
use m_emu.Core.Exec.{Hart, Action, Outcome, change, gets, checked, ◌>>=◌, ◌>>◌, continue}
use m_emu.Core.Step.{retire, blank_status, Ran, after_check, trap_illegal, finish, step}
use m_emu.Core.Maintains.{Stable, After, Maintains, Maintains-change, Maintains-gets}
use m_emu.Core.PreservesCompressed.{after_check-Maintains, trap_illegal-Maintains}
use m_emu.Core.StepBlank.{IsClear, Untouched, IsClear-Stable, pre_exec-IsClear}

-- Two properties that every instruction keeps are kept together.
Stable-both : {P Q : Rv64Core → Type 0} → Stable P → Stable Q → Stable (λ s. P s × Q s)
Stable-both p q = record {
  ignores_mmu = record { at = λ s m h. (p.ignores_mmu.at s m h.0, q.ignores_mmu.at s m h.1) };
  on_gpr = λ i v s t e h. (p.on_gpr i v s t e h.0, q.on_gpr i v s t e h.1);
  on_pc = λ v s h. (p.on_pc v s h.0, q.on_pc v s h.1);
  on_trap = λ c v s t e h. (p.on_trap c v s t e h.0, q.on_trap c v s t e h.1);
  on_csr = λ i v s t a e h. (p.on_csr i v s t a e h.0, q.on_csr i v s t a e h.1);
  on_mret = λ s t e h. (p.on_mret s t e h.0, q.on_mret s t e h.1);
  on_sret = λ s t e h. (p.on_sret s t e h.0, q.on_sret s t e h.1);
  on_retire = λ o i s h. (p.on_retire o i s h.0, q.on_retire o i s h.1);
}

-- All five blank fields are clear.
unfoldable pub IsBlank : Rv64Core → Type 0
IsBlank s =
    IsClear MStatus.blank0 s
    × (IsClear MStatus.blank1 s
        × (IsClear MStatus.blank2 s × (IsClear MStatus.blank3 s × IsClear MStatus.blank4 s)))

by_register :
    (g : Field)
    → all_apart g (status_fields RvCsrAddr.mstatus) ≡ true
    → all_apart g (status_fields RvCsrAddr.sstatus) ≡ true
    → (c : RvCsrAddr) → all_apart g (status_fields c) ≡ true
by_register g m s RvCsrAddr.mstatus = m
by_register g m s RvCsrAddr.sstatus = s
by_register g m s c = refl

blank0-Untouched : Untouched MStatus.blank0
blank0-Untouched = record {
  csrs = by_register MStatus.blank0 refl refl;
  sie = refl;
  mie = refl;
  spie = refl;
  mpie = refl;
  spp = refl;
  mpp = refl;
  mprv = refl;
}

blank1-Untouched : Untouched MStatus.blank1
blank1-Untouched = record {
  csrs = by_register MStatus.blank1 refl refl;
  sie = refl;
  mie = refl;
  spie = refl;
  mpie = refl;
  spp = refl;
  mpp = refl;
  mprv = refl;
}

blank2-Untouched : Untouched MStatus.blank2
blank2-Untouched = record {
  csrs = by_register MStatus.blank2 refl refl;
  sie = refl;
  mie = refl;
  spie = refl;
  mpie = refl;
  spp = refl;
  mpp = refl;
  mprv = refl;
}

blank3-Untouched : Untouched MStatus.blank3
blank3-Untouched = record {
  csrs = by_register MStatus.blank3 refl refl;
  sie = refl;
  mie = refl;
  spie = refl;
  mpie = refl;
  spp = refl;
  mpp = refl;
  mprv = refl;
}

blank4-Untouched : Untouched MStatus.blank4
blank4-Untouched = record {
  csrs = by_register MStatus.blank4 refl refl;
  sie = refl;
  mie = refl;
  spie = refl;
  mpie = refl;
  spp = refl;
  mpp = refl;
  mprv = refl;
}

pub IsBlank-Stable : Stable IsBlank
unfolding IsBlank
IsBlank-Stable = Stable-both (IsClear-Stable MStatus.blank0 blank0-Untouched) (
    Stable-both (IsClear-Stable MStatus.blank1 blank1-Untouched) (
      Stable-both (IsClear-Stable MStatus.blank2 blank2-Untouched) (
        Stable-both (IsClear-Stable MStatus.blank3 blank3-Untouched)
          (IsClear-Stable MStatus.blank4 blank4-Untouched))))

pre_exec-IsBlank : (s t : Rv64Core) → pre_exec s ≡ some t → IsBlank s → IsBlank t
unfolding IsBlank
pre_exec-IsBlank s t e h =
    let kept : (g : Field) → Untouched g → IsClear g s → IsClear g t =
      λ g u. pre_exec-IsClear g u s t e in
    (
      kept MStatus.blank0 blank0-Untouched h.0,
      (
        kept MStatus.blank1 blank1-Untouched h.1.0,
        (
          kept MStatus.blank2 blank2-Untouched h.1.1.0,
          (
            kept MStatus.blank3 blank3-Untouched h.1.1.1.0,
            kept MStatus.blank4 blank4-Untouched h.1.1.1.1,
          ),
        ),
      ),
    )

pub blank_status-IsBlank : (s : Rv64Core) → IsBlank s → blank_status s ≡ true
unfolding blank_status IsBlank
blank_status-IsBlank s h = ground arith

module _ {S : Type 0} where
  -- The end of a step, and a step, without the assertions.
  unfoldable pub finish_unchecked : Ran → Action S (Unit {0})
  finish_unchecked (inst, outcome) = do
    trap_illegal (inst, outcome)
    change (λ s. some (retire outcome inst s))

  unfoldable pub step_unchecked : SysBus S → Action S (Unit {0})
  step_unchecked bus = do
    change pre_exec
    need_trap ← gets (λ s. s.need_trap)
    ran ← after_check bus need_trap
    finish_unchecked ran

  -- Two actions that do the same on every hart with clear blank fields.
  abbrev pub Agree : {A : Type 0} → Action S A → Action S A → Type 0
  Agree m n = (h : Hart S) → IsBlank h.core → m h ≡ n h

  bind-Agree :
      {A B : Type 0} (m : Action S A) (f g : A → Action S B)
      → Maintains IsBlank m
      → ((a : A) → Agree (f a) (g a))
      → Agree (m >>= f) (m >>= g)
  unfolding ◌>>=◌
  bind-Agree m f g k a h b = next (m h) (k.holds h b)
    where
      next : (o : Option (Hart S × _)) → After IsBlank o → continue f o ≡ continue g o
      next none p = refl
      next (some (t, x)) p = a x t p

  retire_then_check :
      (outcome : Outcome) (inst : ℕ)
      → Agree
          (change (λ s. some (retire outcome inst s)) >>= λ u.
            gets blank_status >>= λ blank. checked (if blank then some tt else none))
          (change (λ s. some (retire outcome inst s)))
  unfolding ◌>>=◌ change gets checked
  retire_then_check outcome inst h b =
      let e : blank_status (retire outcome inst h.core) ≡ true =
        blank_status-IsBlank _ (IsBlank-Stable.on_retire outcome inst h.core b) in
      rw e refl

  pub finish-Agree : (r : Ran) → Agree (finish r) (finish_unchecked r)
  unfolding finish finish_unchecked
  finish-Agree (inst, outcome) =
      bind-Agree (trap_illegal (inst, outcome)) _ _
        (trap_illegal-Maintains IsBlank-Stable (inst, outcome)) λ u. retire_then_check outcome inst

  -- On a hart whose mstatus has its blank fields clear, a step is the step without the five
  -- assertions at its end.
  pub step-step_unchecked :
      (bus : SysBus S) (h : Hart S) → IsBlank h.core → step bus h ≡ step_unchecked bus h
  unfolding step step_unchecked
  step-step_unchecked bus h b =
      bind-Agree (change pre_exec) _ _ (Maintains-change pre_exec pre_exec-IsBlank)
        (λ u. bind-Agree (gets (λ s. s.need_trap)) _ _ (Maintains-gets _) (λ need_trap.
          bind-Agree (after_check bus need_trap) _ _
            (after_check-Maintains bus IsBlank-Stable need_trap) finish-Agree))
        h b
