-- ===== src/Core/DebugFrame.antt =====
-- What an access of the debugger to memory changes of the hart.
use m_emu.Base.{
  ℕ, suc, zero, ◌≡◌, refl, if◌then◌else◌, Bool, true, false, Option, List, [], ◌∷◌, ◌%◌, ◌^◌,
}
use m_emu.Rv64.{Rv64Core}
use m_emu.Mmu.{SysBus, Feedback}
use m_emu.Mmu.Frame.{IgnoresMmu, with_mmu, vaddr_read_buffer-Leaves, vaddr_write_buffer-Leaves}
use m_emu.Core.Exec.{Hart, Action}
use m_emu.Core.Maintains.{Maintains, After, Maintains-mmu, Maintains-bind, action_rules}
use m_emu.Core.Debug.{
  read_further, write_further, read_bytes, write_bytes, debug_mem_read, debug_mem_write, is_direct,
}

After-if :
    {S A : Type 0} (P : Rv64Core → Type 0) (test : Bool) (then_end else_end : Option (Hart S × A))
    → After P then_end
    → After P else_end
    → After P (if test then then_end else else_end)
After-if P true then_end else_end p q = p
After-if P false then_end else_end p q = q

module _ {S : Type 0} (bus : SysBus S) {P : Rv64Core → Type 0} (ignores : IgnoresMmu P) where
  read_further-Maintains :
      (r : Feedback × List ℕ) (rest : Action S (Option (List ℕ)))
      → Maintains P rest
      → Maintains P (read_further r rest)
  read_further-Maintains (Feedback.access_ok, byte) rest k = search action_rules
  read_further-Maintains (Feedback.access_fault, byte) rest k = search action_rules
  read_further-Maintains (Feedback.page_fault, byte) rest k = search action_rules
  read_further-Maintains (Feedback.mis_align, byte) rest k = search action_rules

  write_further-Maintains :
      (r : Feedback × List ℕ) (rest : Action S Bool)
      → Maintains P rest
      → Maintains P (write_further r rest)
  write_further-Maintains (Feedback.access_ok, byte) rest k = k
  write_further-Maintains (Feedback.access_fault, byte) rest k = search action_rules
  write_further-Maintains (Feedback.page_fault, byte) rest k = search action_rules
  write_further-Maintains (Feedback.mis_align, byte) rest k = search action_rules

  read_bytes-Maintains : (n addr : ℕ) → Maintains P (read_bytes bus n addr)
  unfolding read_bytes
  read_bytes-Maintains zero addr = search action_rules
  read_bytes-Maintains (suc n) addr =
      Maintains-bind _ _ (Maintains-mmu _ (vaddr_read_buffer-Leaves bus ignores (addr % 2 ^ 64) 1))
        (λ byte. read_further-Maintains byte _ (read_bytes-Maintains n (suc addr)))

  write_bytes-Maintains : (buffer : List ℕ) (addr : ℕ) → Maintains P (write_bytes bus buffer addr)
  unfolding write_bytes
  write_bytes-Maintains [] addr = search action_rules
  write_bytes-Maintains (byte ∷ buffer) addr =
      Maintains-bind _ _
        (Maintains-mmu _ (vaddr_write_buffer-Leaves bus ignores (addr % 2 ^ 64) 1 (byte ∷ [])))
        (λ written. write_further-Maintains written _ (write_bytes-Maintains buffer (suc addr)))

  pub debug_mem_read-After :
      (start_addr size : ℕ) (h : Hart S) → P h.core → After P (debug_mem_read bus start_addr size h)
  unfolding debug_mem_read
  debug_mem_read-After start_addr size h p =
      After-if P (is_direct h.core) _ _ p ((read_bytes-Maintains size start_addr).holds h p)

  pub debug_mem_write-After :
      (start_addr : ℕ) (buffer : List ℕ) (h : Hart S)
      → P h.core
      → After P (debug_mem_write bus start_addr buffer h)
  unfolding debug_mem_write
  debug_mem_write-After start_addr buffer h p =
      After-if P (is_direct h.core) _ _ p ((write_bytes-Maintains buffer start_addr).holds h p)

-- The core as it was, but for the state of the MMU.
abbrev pub IsSameButMmu : Rv64Core → Rv64Core → Type 0
IsSameButMmu s t = with_mmu s.sv39_mmu t ≡ s

-- Reading or writing memory for the debugger, wherever it returns, leaves every register, CSR and
-- mode of the hart as it was: only the state of the MMU may differ.
pub debug_mem-IsSameButMmu :
    {S : Type 0} (bus : SysBus S) (start_addr size : ℕ) (buffer : List ℕ) (h : Hart S)
    → After (IsSameButMmu h.core) (debug_mem_read bus start_addr size h)
      × After (IsSameButMmu h.core) (debug_mem_write bus start_addr buffer h)
debug_mem-IsSameButMmu bus start_addr size buffer h =
    let ignores : IgnoresMmu (IsSameButMmu h.core) = record { at = λ s m p. p } in
    (
      debug_mem_read-After bus ignores start_addr size h refl,
      debug_mem_write-After bus ignores start_addr buffer h refl,
    )
