-- ===== src/Mmu/Access.antt =====
-- VAddr_ReadBuffer_MMU_API, VAddr_WriteBuffer_MMU_API and VAddr_InstFetch_MMU_API
-- (M-EMU/modules/core/rv64/inline_impl/rv64_sv39.hpp) and the sfence.vma instruction
-- (rv64_privilege.hpp). `none` is a failed assertion.
use m_emu.Base.{
  ℕ, ◌+◌, ◌-◌, ◌/◌, ◌%◌, ◌^◌, Bool, not, ◌&&◌, ◌||◌, Option, none, some, List, [], ◌++◌, ltb, ◌==◌,
  if◌then◌else◌,
}
use m_emu.Words.{get_field}
use m_emu.Rv64.{priv_num, Rv64Core, TlbEntry}
use m_emu.Rv64.MStatus
use m_emu.Rv64.Satp
use m_emu.Mmu.Tlb.{entry_at, page_bits, flag, flush_tlb}
use m_emu.Mmu.Walk.{SysBus, Walked, get_tlb_entry}

-- VAddr_RW_Feedback, whose codes of an instruction fetch are the same numbers.
pub data Feedback : Type 0 where
  access_ok access_fault page_fault mis_align : Feedback

-- The mode as which a load or a store is made.
abbrev pub effective_mode : Rv64Core → ℕ
effective_mode s =
    if flag (get_field MStatus.mprv s.status) && priv_num s.current_priv_mode == 3
    then get_field MStatus.mpp s.status
    else priv_num s.current_priv_mode

-- No translation of a load or a store.
abbrev pub is_bare : Rv64Core → Bool
is_bare s =
    priv_num s.current_priv_mode == 3
      && (not (flag (get_field MStatus.mprv s.status)) || get_field MStatus.mpp s.status == 3)
    || get_field Satp.mode s.satp == 0

abbrev pub crosses_page : ℕ → ℕ → Bool
crosses_page begin_addr size =
    not (begin_addr / 2 ^ 12 == (begin_addr + size + 2 ^ 64 - 1) % 2 ^ 64 / 2 ^ 12)

-- The tests of a load, of a store and of a fetch on the entry, in the order of the code.
unfoldable pub check_read : TlbEntry → Rv64Core → Feedback
check_read e s =
    if not e.a || not e.r && not (flag (get_field MStatus.mxr s.status) && not e.x)
    then Feedback.page_fault
    else if effective_mode s == 0 && not e.u
    then Feedback.page_fault
    else if not (flag (get_field MStatus.sum s.status)) && priv_num s.current_priv_mode == 1 && e.u
    then Feedback.access_fault
    else Feedback.access_ok

unfoldable pub check_write : TlbEntry → Rv64Core → Feedback
check_write e s =
    if not e.a || not e.d || not e.w
    then Feedback.page_fault
    else if effective_mode s == 0 && not e.u
    then Feedback.page_fault
    else if not (flag (get_field MStatus.sum s.status)) && effective_mode s == 1 && e.u
    then Feedback.page_fault
    else Feedback.access_ok

unfoldable pub check_fetch : TlbEntry → Rv64Core → Feedback
check_fetch e s =
    if not e.a || not e.x
    then Feedback.page_fault
    else if priv_num s.current_priv_mode == 0 && not e.u || priv_num s.current_priv_mode == 1 && e.u
    then Feedback.page_fault
    else Feedback.access_ok

-- What an access leaves: the hart, the memory, the feedback and what the caller gets.
abbrev pub Accessed : Type 0 → Type 0 → Type 0
Accessed S A = Rv64Core × S × Feedback × A

-- The access itself, at a physical address.
abbrev pub AccessAt : Type 0 → Type 0 → Type 0
AccessAt S A = ℕ → Rv64Core → S → Option (Accessed S A)

module _ {S : Type 0} (bus : SysBus S) where
  -- The access at the physical address of an entry that passes the test; `nothing` is what the
  -- caller gets without an access. A page size of 0 fails an assertion.
  abbrev pub at_entry :
      {A : Type 0}
      → A
      → (TlbEntry → Rv64Core → Feedback)
      → AccessAt S A
      → ℕ
      → TlbEntry
      → Rv64Core
      → S
      → Option (Accessed S A)
  at_entry nothing check access begin_addr e s mem = elim (check e s) [
    | access_ok ↦
        if page_bits e.pagesize == 0
        then none
        else access ((e.ppa + begin_addr % 2 ^ page_bits e.pagesize) % 2 ^ 64) s mem
    | access_fault ↦ some (s, mem, Feedback.access_fault, nothing)
    | page_fault ↦ some (s, mem, Feedback.page_fault, nothing)
    | mis_align ↦ some (s, mem, Feedback.mis_align, nothing)
  ]

  abbrev pub after_walk :
      {A : Type 0}
      → A
      → (TlbEntry → Rv64Core → Feedback)
      → AccessAt S A
      → ℕ
      → Rv64Core
      → Option (Walked S)
      → Option (Accessed S A)
  after_walk nothing check access begin_addr s none = none
  after_walk nothing check access begin_addr s (some (m, mem, none)) =
      some (record s { sv39_mmu = m }, mem, Feedback.page_fault, nothing)
  after_walk nothing check access begin_addr s (some (m, mem, some i)) =
      at_entry nothing check access begin_addr (entry_at m.tlb i) (record s { sv39_mmu = m }) mem

  -- An access with translation, the part that the functions share.
  unfoldable pub translated :
      {A : Type 0}
      → A
      → (TlbEntry → Rv64Core → Feedback)
      → AccessAt S A
      → ℕ
      → ℕ
      → Rv64Core
      → S
      → Option (Accessed S A)
  translated nothing check access begin_addr size s mem =
      if crosses_page begin_addr size
      then some (s, mem, Feedback.mis_align, nothing)
      else after_walk nothing check access begin_addr s
          (get_tlb_entry bus begin_addr s.satp s.sv39_mmu mem)

  -- A read or a write of physical memory, with the feedback of its failure.
  abbrev pub read_feedback : Rv64Core → S × Option (List ℕ) → Accessed S (List ℕ)
  read_feedback s (t, none) = (s, t, Feedback.access_fault, [])
  read_feedback s (t, some bytes) = (s, t, Feedback.access_ok, bytes)

  abbrev pub read_at : ℕ → AccessAt S (List ℕ)
  read_at size paddr s mem = some (read_feedback s (bus.read paddr size mem))

  abbrev pub write_feedback : {A : Type 0} → Feedback → A → Rv64Core → S × Bool → Accessed S A
  write_feedback failure a s (t, ok) = (s, t, if ok then Feedback.access_ok else failure, a)

  abbrev pub write_at : {A : Type 0} → Feedback → A → List ℕ → AccessAt S A
  write_at failure a buffer paddr s mem =
      some (write_feedback failure a s (bus.write paddr buffer mem))

  unfoldable pub vaddr_read_buffer : ℕ → ℕ → Rv64Core → S → Option (Accessed S (List ℕ))
  vaddr_read_buffer begin_addr size s mem =
      if is_bare s
      then read_at size begin_addr s mem
      else translated [] check_read (read_at size) begin_addr size s mem

  -- A store that the bus refuses is an access fault without translation and a page fault with it.
  unfoldable pub vaddr_write_buffer : ℕ → ℕ → List ℕ → Rv64Core → S → Option (Accessed S (List ℕ))
  vaddr_write_buffer begin_addr size buffer s mem =
      if is_bare s
      then write_at Feedback.access_fault [] buffer begin_addr s mem
      else translated [] check_write (write_at Feedback.page_fault [] buffer) begin_addr size s mem

  -- A fetch that is not split in two.
  unfoldable pub fetch_part : ℕ → ℕ → Rv64Core → S → Option (Accessed S (List ℕ))
  fetch_part begin_addr size s mem =
      if not (begin_addr % 2 == 0)
      then none
      else if priv_num s.current_priv_mode == 3 || get_field Satp.mode s.satp == 0
      then read_at size begin_addr s mem
      else translated [] check_fetch (read_at size) begin_addr size s mem

  abbrev pub second_part : ℕ → Option (Accessed S (List ℕ)) → Option (Accessed S (List ℕ))
  second_part begin_addr none = none
  second_part begin_addr (some (s, mem, access_ok, low)) =
      elim (fetch_part ((begin_addr + 2) % 2 ^ 64) 2 s mem) [
        | none ↦ none
        | some (s2, mem2, f, high) ↦ some (s2, mem2, f, low ++ high)
      ]
  second_part begin_addr (some (s, mem, f, low)) = some (s, mem, f, low)

  unfoldable pub vaddr_inst_fetch : ℕ → ℕ → Rv64Core → S → Option (Accessed S (List ℕ))
  vaddr_inst_fetch begin_addr size s mem =
      if size == 4 && begin_addr % 4 == 2
      then second_part begin_addr (fetch_part begin_addr 2 s mem)
      else fetch_part begin_addr size s mem

-- `none` is the result `false`.
unfoldable pub sfence_vma : ℕ → ℕ → Rv64Core → Option Rv64Core
sfence_vma vaddr asid s =
    if ltb (priv_num s.current_priv_mode) 1
      || priv_num s.current_priv_mode == 1 && flag (get_field MStatus.tvm s.status)
    then none
    else some (record s { sv39_mmu = flush_tlb vaddr asid s.sv39_mmu })
