-- ===== src/Core/Branches.antt =====
-- The branches through a whole step.
use m_emu.Base.{
  ℕ, ◌+◌, ◌%◌, ◌^◌, ◌≡◌, refl, ap, ◌∙◌, Bool, true, false, some, arith, ◌==◌, if◌then◌else◌,
}
use m_emu.Words.{get_field}
use m_emu.Rv64.Reset.{gpr_at, write_program_counter}
use m_emu.Mmu.{SysBus}
use m_emu.Mmu.Frame.{IgnoresMmu, vaddr_inst_fetch-Leaves}
use m_emu.Core.Inst
use m_emu.Core.Encode.{b_offset-sum}
use m_emu.Core.Opcodes.{opcode_branch}
use m_emu.Core.Exec.{Hart, Outcome, pure, gpr, pc, set_pc}
use m_emu.Core.Jumps.{branch_taken, branch_to, branch_if, branch}
use m_emu.Core.Step.{is_compressed, retire, dispatch, execute, step}
use m_emu.Core.Equations.{at_core, bind-returns, change-returns, gets-returns, pure-returns}
use m_emu.Core.StepUnchecked.{IsBlank, IsBlank-Stable, finish-Agree, finish_unchecked}
use m_emu.Core.Runs.{Fetches, step-run}
use m_emu.Core.RegisterOps.{fetched_no_trap}

-- A fetch leaves the program counter.
fetched_even :
    {S : Type 0} (bus : SysBus S) (h ready : Hart S) (inst : ℕ)
    → Fetches bus h ready inst
    → ready.core.current_program_counter % 2 ≡ 0
fetched_even {S} bus h ready inst f =
    let ignores : IgnoresMmu (λ s. s.current_program_counter % 2 ≡ 0) = record {
      at = λ s m e. e;
    } in
    let left =
      vaddr_inst_fetch-Leaves bus ignores f.checked_core.current_program_counter 4 f.checked_core
        h.mem f.even in
    rw f.fetch at left

-- The target of a branch is even.
target_even : (here inst : ℕ) → here % 2 ≡ 0 → (here + Inst.b_offset inst) % 2 ^ 64 % 2 ≡ 0
target_even here inst e = rw (b_offset-sum inst) (omega arith)

-- A branch that the code decides.
pub record Branched {S : Type 0} (ready t : Hart S) (target : ℕ) : Type 0 where
  pub pc : t.core.current_program_counter ≡ target
  pub counted : t.core.minstret ≡ (ready.core.minstret + 1) % 2 ^ 64
  pub registers : t.core.gpr ≡ ready.core.gpr
  pub memory : t.mem ≡ ready.mem

branch_not_compressed :
    (inst : ℕ) → get_field Inst.opcode inst ≡ opcode_branch → is_compressed inst ≡ false
branch_not_compressed inst e = rw e refl

abbrev pub branch_outcome : Bool → Outcome
branch_outcome taken = if taken then Outcome.jumped else Outcome.sequential

module _ {S : Type 0} where
  -- A branch leaves the registers and the memory; the program counter is the target if it is taken.
  abbrev pub branched : Bool → ℕ → Hart S → Hart S
  branched taken target h = if taken then at_core (write_program_counter target h.core) h else h

  decided :
      (taken : Bool) (target : ℕ) (h : Hart S)
      → target % 2 ≡ 0
      → branch_if target (some taken) h ≡ some (branched taken target h, branch_outcome taken)
  unfolding branch_to pure
  decided false target h even = pure-returns Outcome.sequential h
  decided true target h even =
      let aligned : (target % 2 == 0) ≡ true = ground arith in
      rw aligned (
        bind-returns (set_pc target) _ h (at_core (write_program_counter target h.core) h) tt
          (change-returns (λ s. some (write_program_counter target s)) h _ refl))

  execute-branch :
      (bus : SysBus S) (inst : ℕ) (taken : Bool) (h : Hart S)
      → get_field Inst.opcode inst ≡ opcode_branch
      → h.core.current_program_counter % 2 ≡ 0
      → branch_taken
          (get_field Inst.funct3 inst)
          (gpr_at h.core (get_field Inst.rs1 inst))
          (gpr_at h.core (get_field Inst.rs2 inst))
        ≡ some taken
      → execute bus inst h
        ≡ some (
          branched taken ((h.core.current_program_counter + Inst.b_offset inst) % 2 ^ 64) h,
          branch_outcome taken,
        )
  unfolding execute dispatch branch
  execute-branch bus inst taken h c even d = rw c (
      bind-returns (gpr (get_field Inst.rs1 inst)) _ h h _ (gets-returns _ h)
      ∙ bind-returns (gpr (get_field Inst.rs2 inst)) _ h h _ (gets-returns _ h)
      ∙ bind-returns pc _ h h _ (gets-returns _ h)
      ∙ ap (λ b. branch_if ((h.core.current_program_counter + Inst.b_offset inst) % 2 ^ 64) b h) d
      ∙ decided taken _ h (target_even h.core.current_program_counter inst even))

  ended :
      (inst : ℕ) (taken : Bool) (t : Hart S)
      → finish_unchecked (inst, branch_outcome taken) t
        ≡ some (at_core (retire (branch_outcome taken) inst t.core) t, tt)
  unfolding finish_unchecked
  ended inst true t =
      bind-returns (pure tt) _ t t tt (pure-returns tt t)
      ∙ change-returns (λ s. some (retire Outcome.jumped inst s)) t _ refl
  ended inst false t =
      bind-returns (pure tt) _ t t tt (pure-returns tt t)
      ∙ change-returns (λ s. some (retire Outcome.sequential inst s)) t _ refl

  branched-IsBlank :
      (taken : Bool) (target : ℕ) (h : Hart S)
      → IsBlank h.core
      → IsBlank (branched taken target h).core
  branched-IsBlank true target h b = IsBlank-Stable.on_pc target h.core b
  branched-IsBlank false target h b = b

  retire-Branched :
      (taken : Bool) (target inst : ℕ) (h : Hart S)
      → h.core.need_trap ≡ false
      → is_compressed inst ≡ false
      → Branched h
          (at_core
            (retire (branch_outcome taken) inst (branched taken target h).core)
            (branched taken target h))
          (if taken then target else (h.core.current_program_counter + 4) % 2 ^ 64)
  unfolding retire write_program_counter
  retire-Branched true target inst h n c =
      rw n (record { pc = refl; counted = refl; registers = refl; memory = refl })
  retire-Branched false target inst h n c =
      rw (n, c) (record { pc = refl; counted = refl; registers = refl; memory = refl })

  -- A branch of 32 bits with a function code that the core knows, fetched without a trap by a
  -- hart with clear blank fields in mstatus, always completes: the step returns, the program
  -- counter is the even target if the condition on the two source registers holds and the next
  -- instruction if it does not, minstret has advanced by one, and the registers and the memory
  -- are as after the fetch.
  pub step-branch :
      (bus : SysBus S) (h ready : Hart S) (inst : ℕ) (taken : Bool)
      → Fetches bus h ready inst
      → IsBlank ready.core
      → get_field Inst.opcode inst ≡ opcode_branch
      → branch_taken
          (get_field Inst.funct3 inst)
          (gpr_at ready.core (get_field Inst.rs1 inst))
          (gpr_at ready.core (get_field Inst.rs2 inst))
        ≡ some taken
      → (t : Hart S) × (step bus h ≡ some (t, tt))
        × Branched ready t (
            if taken
            then (ready.core.current_program_counter + Inst.b_offset inst) % 2 ^ 64
            else (ready.core.current_program_counter + 4) % 2 ^ 64)
  step-branch bus h ready inst taken f blank code decision =
      let target = (ready.core.current_program_counter + Inst.b_offset inst) % 2 ^ 64 in
      let t = branched taken target ready in
      (
        at_core (retire (branch_outcome taken) inst t.core) t,
        step-run bus h ready inst f
            ∙ bind-returns (execute bus inst) _ ready t (branch_outcome taken) (
                execute-branch bus inst taken ready code (fetched_even bus h ready inst f) decision)
            ∙ finish-Agree (inst, branch_outcome taken) t
                (branched-IsBlank taken target ready blank)
            ∙ ended inst taken t,
        retire-Branched taken target inst ready (fetched_no_trap bus h ready inst f)
            (branch_not_compressed inst code),
      )
