-- ===== src/Core/Preserves.antt =====
-- Every instruction keeps a property that its parts keep.
use m_emu.Base.{ℕ, Bool, true, false, Option, none, some, List}
use m_emu.Rv64.{Rv64Core}
use m_emu.Mmu.{SysBus, Feedback, vaddr_read_buffer, vaddr_write_buffer}
use m_emu.Mmu.Frame.{vaddr_read_buffer-Leaves, vaddr_write_buffer-Leaves}
use m_emu.Core.Alu.{AluOp}
use m_emu.Core.Exec.{mmu}
use m_emu.Core.Maintains.{Stable, Maintains, hart_rules, Maintains-mmu}
use m_emu.Core.Memory.{
  loaded, stored, keep_loaded, mem_read, mem_write, load_to, store_from, load, store,
}
use m_emu.Core.Jumps.{lui, auipc, jump_and_link, jal, jalr, branch_to, branch_if, branch}
use m_emu.Core.Compute.{compute, with_immediate, with_registers, opimm, opimm32, op, op32}

module _ {S : Type 0} (bus : SysBus S) {P : Rv64Core → Type 0} (stable : Stable P) where
  loaded-Maintains : (addr : ℕ) (r : Feedback × List ℕ) → Maintains {S = S} P (loaded addr r)
  loaded-Maintains addr (Feedback.access_ok, bytes) = search hart_rules
  loaded-Maintains addr (Feedback.access_fault, bytes) = search hart_rules
  loaded-Maintains addr (Feedback.page_fault, bytes) = search hart_rules
  loaded-Maintains addr (Feedback.mis_align, bytes) = search hart_rules

  stored-Maintains : (addr : ℕ) (r : Feedback × List ℕ) → Maintains {S = S} P (stored addr r)
  stored-Maintains addr (Feedback.access_ok, bytes) = search hart_rules
  stored-Maintains addr (Feedback.access_fault, bytes) = search hart_rules
  stored-Maintains addr (Feedback.page_fault, bytes) = search hart_rules
  stored-Maintains addr (Feedback.mis_align, bytes) = search hart_rules

  keep_loaded-Maintains :
      (dest : ℕ) (f : ℕ → ℕ) (o : Option (List ℕ)) → Maintains {S = S} P (keep_loaded dest f o)
  keep_loaded-Maintains dest f none = search hart_rules
  keep_loaded-Maintains dest f (some bytes) = search hart_rules

  read-Maintains : (addr size : ℕ) → Maintains P (mmu (vaddr_read_buffer bus addr size))
  read-Maintains addr size =
      Maintains-mmu _ (vaddr_read_buffer-Leaves bus stable.ignores_mmu addr size)

  write-Maintains :
      (addr size : ℕ) (buf : List ℕ) → Maintains P (mmu (vaddr_write_buffer bus addr size buf))
  write-Maintains addr size buf =
      Maintains-mmu _ (vaddr_write_buffer-Leaves bus stable.ignores_mmu addr size buf)

  pub mem_read-Maintains : (addr size : ℕ) → Maintains P (mem_read bus addr size)
  unfolding mem_read
  mem_read-Maintains addr size = search (hart_rules, loaded-Maintains, read-Maintains)

  pub mem_write-Maintains :
      (addr : ℕ) (buf : List ℕ) (size : ℕ) → Maintains P (mem_write bus addr buf size)
  unfolding mem_write
  mem_write-Maintains addr buf size = search (hart_rules, stored-Maintains, write-Maintains)

  pub load_to-Maintains :
      (dest addr size : ℕ) (f : ℕ → ℕ) → Maintains P (load_to bus dest addr size f)
  unfolding load_to
  load_to-Maintains dest addr size f =
      search (hart_rules, mem_read-Maintains, keep_loaded-Maintains)

  pub store_from-Maintains : (src addr size : ℕ) → Maintains P (store_from bus src addr size)
  unfolding store_from
  store_from-Maintains src addr size = search (hart_rules, mem_write-Maintains)

  pub load-Maintains : (inst : ℕ) → Maintains P (load bus inst)
  unfolding load
  load-Maintains inst = search (hart_rules, load_to-Maintains) depth 12

  pub store-Maintains : (inst : ℕ) → Maintains P (store bus inst)
  unfolding store
  store-Maintains inst = search (hart_rules, store_from-Maintains) depth 12

module _ {S : Type 0} {P : Rv64Core → Type 0} (stable : Stable P) where
  pub lui-Maintains : (inst : ℕ) → Maintains {S = S} P (lui inst)
  unfolding lui
  lui-Maintains inst = search hart_rules

  pub auipc-Maintains : (inst : ℕ) → Maintains {S = S} P (auipc inst)
  unfolding auipc
  auipc-Maintains inst = search hart_rules

  jump_and_link-Maintains : (link size npc : ℕ) → Maintains {S = S} P (jump_and_link link size npc)
  unfolding jump_and_link
  jump_and_link-Maintains link size npc = search hart_rules depth 8

  pub jal-Maintains : (inst : ℕ) → Maintains {S = S} P (jal inst)
  unfolding jal
  jal-Maintains inst = search (hart_rules, jump_and_link-Maintains)

  pub jalr-Maintains : (inst : ℕ) → Maintains {S = S} P (jalr inst)
  unfolding jalr
  jalr-Maintains inst = search (hart_rules, jump_and_link-Maintains)

  branch_if-Maintains : (npc : ℕ) (o : Option Bool) → Maintains {S = S} P (branch_if npc o)
  unfolding branch_to
  branch_if-Maintains npc none = search hart_rules
  branch_if-Maintains npc (some b) = search hart_rules depth 8

  pub branch-Maintains : (inst : ℕ) → Maintains {S = S} P (branch inst)
  unfolding branch
  branch-Maintains inst = search (hart_rules, branch_if-Maintains) depth 8

  pub compute-Maintains :
      (dest a b : ℕ) (op : AluOp) (op_32 : Bool) → Maintains {S = S} P (compute dest a b op op_32)
  unfolding compute
  compute-Maintains dest a b op op_32 = search hart_rules

  with_immediate-Maintains :
      (inst : ℕ) (op_32 : Bool) (o : Option (AluOp × ℕ))
      → Maintains {S = S} P (with_immediate inst op_32 o)
  with_immediate-Maintains inst op_32 none = search hart_rules
  with_immediate-Maintains inst op_32 (some (op, imm)) = search (hart_rules, compute-Maintains)

  with_registers-Maintains :
      (inst : ℕ) (op_32 : Bool) (o : Option AluOp)
      → Maintains {S = S} P (with_registers inst op_32 o)
  with_registers-Maintains inst op_32 none = search hart_rules
  with_registers-Maintains inst op_32 (some op) = search (hart_rules, compute-Maintains) depth 8

  pub opimm-Maintains : (inst : ℕ) → Maintains {S = S} P (opimm inst)
  unfolding opimm
  opimm-Maintains inst = with_immediate-Maintains inst false _

  pub opimm32-Maintains : (inst : ℕ) → Maintains {S = S} P (opimm32 inst)
  unfolding opimm32
  opimm32-Maintains inst = with_immediate-Maintains inst true _

  pub op-Maintains : (inst : ℕ) → Maintains {S = S} P (op inst)
  unfolding op
  op-Maintains inst = with_registers-Maintains inst false _

  pub op32-Maintains : (inst : ℕ) → Maintains {S = S} P (op32 inst)
  unfolding op32
  op32-Maintains inst = with_registers-Maintains inst true _
