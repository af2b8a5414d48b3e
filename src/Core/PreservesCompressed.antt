-- ===== src/Core/PreservesCompressed.antt =====
-- The compressed instructions keep a property that their parts keep, and so does a whole step.
use m_emu.Base.{ℕ, ◌≡◌, subst, Bool, some, List}
use m_emu.Rv64.{Rv64Core}
use m_emu.Trap.{pre_exec}
use m_emu.Mmu.{SysBus, Feedback, vaddr_inst_fetch}
use m_emu.Mmu.Frame.{vaddr_inst_fetch-Leaves}
use m_emu.Core.Alu.{AluOp}
use m_emu.Core.Exec.{Hart, Outcome, mmu, change}
use m_emu.Core.Compressed.{
  c_addi4spn, c_update, c_addi, c_addiw, c_li, c_addi16sp_lui, c_alu_registers, c_alu, c_jump_by,
  c_j, c_beqz, c_bnez, c_slli, c_jump_to, c_jr_mv_eb_jalr_add,
}
use m_emu.Core.CompressedMemory.{c_lw, c_ld, c_sw, c_sd, c_lwsp, c_ldsp, c_swsp, c_sdsp, compressed}
use m_emu.Core.Step.{
  dispatch, execute, Ran, fetched, fetch_execute, after_check, retire, trap_illegal, finish, step,
}
use m_emu.Core.Maintains.{
  Stable, Maintains, After, hart_rules, Maintains-mmu, Maintains-change, change_then-After,
}
use m_emu.Core.Preserves.{
  load_to-Maintains, store_from-Maintains, compute-Maintains, load-Maintains, store-Maintains,
  lui-Maintains, auipc-Maintains, jal-Maintains, jalr-Maintains, branch-Maintains, opimm-Maintains,
  opimm32-Maintains, op-Maintains, op32-Maintains,
}
use m_emu.Core.PreservesSystem.{amo-Maintains, system-Maintains}

module _ {S : Type 0} {P : Rv64Core → Type 0} (stable : Stable P) where
  c_addi4spn-Maintains : (inst : ℕ) → Maintains {S = S} P (c_addi4spn inst)
  unfolding c_addi4spn
  c_addi4spn-Maintains inst = search hart_rules

  c_update-Maintains :
      (dest b : ℕ) (op : AluOp) (op_32 : Bool) → Maintains {S = S} P (c_update dest b op op_32)
  unfolding c_update
  c_update-Maintains dest b op op_32 = search (hart_rules, compute-Maintains)

  c_addi-Maintains : (inst : ℕ) → Maintains {S = S} P (c_addi inst)
  unfolding c_addi
  c_addi-Maintains inst = search (hart_rules, c_update-Maintains)

  c_addiw-Maintains : (inst : ℕ) → Maintains {S = S} P (c_addiw inst)
  unfolding c_addiw
  c_addiw-Maintains inst = search (hart_rules, c_update-Maintains)

  c_li-Maintains : (inst : ℕ) → Maintains {S = S} P (c_li inst)
  unfolding c_li
  c_li-Maintains inst = search hart_rules

  c_addi16sp_lui-Maintains : (inst : ℕ) → Maintains {S = S} P (c_addi16sp_lui inst)
  unfolding c_addi16sp_lui
  c_addi16sp_lui-Maintains inst = search hart_rules depth 8

  c_alu_registers-Maintains : (inst : ℕ) → Maintains {S = S} P (c_alu_registers inst)
  unfolding c_alu_registers
  c_alu_registers-Maintains inst = search (hart_rules, c_update-Maintains) depth 8

  c_alu-Maintains : (inst : ℕ) → Maintains {S = S} P (c_alu inst)
  unfolding c_alu
  c_alu-Maintains inst = search (hart_rules, c_update-Maintains, c_alu_registers-Maintains) depth 8

  c_jump_by-Maintains : (imm : ℕ) → Maintains {S = S} P (c_jump_by imm)
  unfolding c_jump_by
  c_jump_by-Maintains imm = search hart_rules

  c_j-Maintains : (inst : ℕ) → Maintains {S = S} P (c_j inst)
  unfolding c_j
  c_j-Maintains inst = c_jump_by-Maintains _

  c_beqz-Maintains : (inst : ℕ) → Maintains {S = S} P (c_beqz inst)
  unfolding c_beqz
  c_beqz-Maintains inst = search (hart_rules, c_jump_by-Maintains)

  c_bnez-Maintains : (inst : ℕ) → Maintains {S = S} P (c_bnez inst)
  unfolding c_bnez
  c_bnez-Maintains inst = search (hart_rules, c_jump_by-Maintains)

  c_slli-Maintains : (inst : ℕ) → Maintains {S = S} P (c_slli inst)
  unfolding c_slli
  c_slli-Maintains inst = search (hart_rules, c_update-Maintains)

  c_jump_to-Maintains : (link : Bool) (npc : ℕ) → Maintains {S = S} P (c_jump_to link npc)
  unfolding c_jump_to
  c_jump_to-Maintains link npc = search hart_rules depth 9

  c_jr-Maintains : (inst : ℕ) → Maintains {S = S} P (c_jr_mv_eb_jalr_add inst)
  unfolding c_jr_mv_eb_jalr_add
  c_jr-Maintains inst = search (hart_rules, c_jump_to-Maintains, c_update-Maintains) depth 9

module _ {S : Type 0} (bus : SysBus S) {P : Rv64Core → Type 0} (stable : Stable P) where
  c_lw-Maintains : (inst : ℕ) → Maintains P (c_lw bus inst)
  unfolding c_lw
  c_lw-Maintains inst = search (hart_rules, load_to-Maintains)

  c_ld-Maintains : (inst : ℕ) → Maintains P (c_ld bus inst)
  unfolding c_ld
  c_ld-Maintains inst = search (hart_rules, load_to-Maintains)

  c_sw-Maintains : (inst : ℕ) → Maintains P (c_sw bus inst)
  unfolding c_sw
  c_sw-Maintains inst = search (hart_rules, store_from-Maintains)

  c_sd-Maintains : (inst : ℕ) → Maintains P (c_sd bus inst)
  unfolding c_sd
  c_sd-Maintains inst = search (hart_rules, store_from-Maintains)

  c_lwsp-Maintains : (inst : ℕ) → Maintains P (c_lwsp bus inst)
  unfolding c_lwsp
  c_lwsp-Maintains inst = search (hart_rules, load_to-Maintains)

  c_ldsp-Maintains : (inst : ℕ) → Maintains P (c_ldsp bus inst)
  unfolding c_ldsp
  c_ldsp-Maintains inst = search (hart_rules, load_to-Maintains)

  c_swsp-Maintains : (inst : ℕ) → Maintains P (c_swsp bus inst)
  unfolding c_swsp
  c_swsp-Maintains inst = search (hart_rules, store_from-Maintains)

  c_sdsp-Maintains : (inst : ℕ) → Maintains P (c_sdsp bus inst)
  unfolding c_sdsp
  c_sdsp-Maintains inst = search (hart_rules, store_from-Maintains)

  compressed-Maintains : (inst : ℕ) → Maintains P (compressed bus inst)
  unfolding compressed
  compressed-Maintains inst =
      search
        (
          hart_rules, c_lw-Maintains, c_ld-Maintains, c_sw-Maintains, c_sd-Maintains,
          c_lwsp-Maintains, c_ldsp-Maintains, c_swsp-Maintains, c_sdsp-Maintains,
          c_addi4spn-Maintains, c_addi-Maintains, c_addiw-Maintains, c_li-Maintains,
          c_addi16sp_lui-Maintains, c_alu-Maintains, c_j-Maintains, c_beqz-Maintains,
          c_bnez-Maintains, c_slli-Maintains, c_jr-Maintains,
        )
        depth 24

  dispatch-Maintains : (inst : ℕ) → Maintains P (dispatch bus inst)
  unfolding dispatch
  dispatch-Maintains inst =
      search
        (
          hart_rules, load-Maintains, store-Maintains, lui-Maintains, auipc-Maintains,
          jal-Maintains, jalr-Maintains, branch-Maintains, opimm-Maintains, opimm32-Maintains,
          op-Maintains, op32-Maintains, amo-Maintains, system-Maintains,
        )
        depth 20

  pub execute-Maintains : (inst : ℕ) → Maintains P (execute bus inst)
  unfolding execute
  execute-Maintains inst = search (hart_rules, compressed-Maintains, dispatch-Maintains)

  fetched-Maintains : (here : ℕ) (r : Feedback × List ℕ) → Maintains P (fetched bus here r)
  fetched-Maintains here (Feedback.access_ok, bytes) = search (hart_rules, execute-Maintains)
  fetched-Maintains here (Feedback.access_fault, bytes) = search hart_rules
  fetched-Maintains here (Feedback.page_fault, bytes) = search hart_rules
  fetched-Maintains here (Feedback.mis_align, bytes) = search hart_rules

  fetch-Maintains : (here : ℕ) → Maintains P (mmu (vaddr_inst_fetch bus here 4))
  fetch-Maintains here = Maintains-mmu _ (vaddr_inst_fetch-Leaves bus stable.ignores_mmu here 4)

  fetch_execute-Maintains : Maintains P (fetch_execute bus)
  unfolding fetch_execute
  fetch_execute-Maintains = search (hart_rules, fetched-Maintains, fetch-Maintains) depth 8

  pub after_check-Maintains : (b : Bool) → Maintains P (after_check bus b)
  unfolding after_check
  after_check-Maintains b = search (hart_rules, fetch_execute-Maintains)

module _ {S : Type 0} {P : Rv64Core → Type 0} (stable : Stable P) where
  pub retire-Maintains :
      (outcome : Outcome) (inst : ℕ)
      → Maintains {S = S} P (change (λ s. some (retire outcome inst s)))
  retire-Maintains outcome inst = Maintains-change _ (λ s t e p.
      let q : retire outcome inst s ≡ t = cc in subst P q (stable.on_retire outcome inst s p))

  pub trap_illegal-Maintains : (r : Ran) → Maintains {S = S} P (trap_illegal r)
  trap_illegal-Maintains (inst, Outcome.illegal) = search hart_rules
  trap_illegal-Maintains (inst, Outcome.jumped) = search hart_rules
  trap_illegal-Maintains (inst, Outcome.sequential) = search hart_rules

  finish-Maintains : (r : Ran) → Maintains {S = S} P (finish r)
  unfolding finish
  finish-Maintains (inst, outcome) =
      search (hart_rules, trap_illegal-Maintains, retire-Maintains) depth 8

module _ {S : Type 0} (bus : SysBus S) {P : Rv64Core → Type 0} (stable : Stable P) where
  -- What a step leaves, for a property that the interrupt check establishes.
  pub step-Maintains :
      (Q : Rv64Core → Type 0)
      → ((s t : Rv64Core) → pre_exec s ≡ some t → Q s → P t)
      → (h : Hart S) → Q h.core
      → After P (step bus h)
  unfolding step
  step-Maintains Q k h q =
      change_then-After pre_exec _ h (λ t e. k h.core t e q)
        (search (hart_rules, after_check-Maintains, finish-Maintains) depth 8)
