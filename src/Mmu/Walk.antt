-- ===== src/Mmu/Walk.antt =====
-- getTLBEntry of RV64SV39_MMU (M-EMU/modules/core/rv64/inline_impl/rv64_sv39.hpp): the TLB first,
-- then the page table in memory. `none` is a failed assertion.
use m_emu.Base.{
  ℕ, zero, suc, ◌+◌, ◌-◌, ◌*◌, ◌/◌, ◌^◌, Bool, not, ◌&&◌, ◌||◌, Option, none, some, List, ◌==◌,
  if◌then◌else◌,
}
use m_emu.Words.{get_field, from_le}
use m_emu.Rv64.{Sv39Mmu}
use m_emu.Rv64.Satp
use m_emu.Rv64.VAddr
use m_emu.Mmu.Tlb.{
  pte_ppa, is_valid_leaf_pte, is_valid_dir_pte, write_tlb, cache_lookup, search, Found,
}

-- The system bus, as the hart uses it: a read or a write of physical memory, which may change the
-- state `S` of the bus and the devices. `none` and `false` are the results other than MEMU_OK.
pub record SysBus (S : Type 0) : Type 0 where
  pub read : ℕ → ℕ → S → S × Option (List ℕ)
  pub write : ℕ → List ℕ → S → S × Bool

-- The high bits of an address repeat its bit 38.
unfoldable pub is_canonical : ℕ → Bool
is_canonical vaddr =
    get_field VAddr.blank vaddr == 2 ^ 25 - 1 && not (get_field VAddr.vpn_2 vaddr / 2 ^ 8 == 0)
    || get_field VAddr.blank vaddr == 0 && get_field VAddr.vpn_2 vaddr / 2 ^ 8 == 0

-- The index of the page table of a level, and the page size of a leaf in it.
abbrev pub vpn : ℕ → ℕ → ℕ
vpn zero vaddr = get_field VAddr.vpn_0 vaddr
vpn (suc zero) vaddr = get_field VAddr.vpn_1 vaddr
vpn (suc (suc n)) vaddr = get_field VAddr.vpn_2 vaddr

-- What getTLBEntry leaves: the MMU, the memory, the index of the entry or the null pointer.
abbrev pub Walked : Type 0 → Type 0
Walked S = Sv39Mmu × S × Option ℕ

abbrev pub wrote : {S : Type 0} → S → Sv39Mmu × ℕ → Walked S
wrote t (m, i) = (m, t, some i)

module _ {S : Type 0} (bus : SysBus S) where
  abbrev pub with_pte : S × Option (List ℕ) → (S → ℕ → Option (Walked S)) → Option (Walked S)
  with_pte (t, none) k = none
  with_pte (t, some bytes) k = k t (from_le bytes)

  -- The page table at `page_table_addr` of a level: 2, 1 or 0.
  unfoldable pub walk : ℕ → ℕ → ℕ → ℕ → Sv39Mmu → S → Option (Walked S)
  walk zero page_table_addr vaddr satp m s =
      with_pte (bus.read (page_table_addr + vpn 0 vaddr * 8) 8 s) λ t pte.
        if is_valid_leaf_pte pte
        then some (wrote t (write_tlb pte 1 vaddr satp m))
        else some (m, t, none)
  walk (suc level) page_table_addr vaddr satp m s =
      with_pte (bus.read (page_table_addr + vpn (suc level) vaddr * 8) 8 s) λ t pte.
        if is_valid_leaf_pte pte
        then some (wrote t (write_tlb pte (level + 2) vaddr satp m))
        else if not (is_valid_dir_pte pte)
        then some (m, t, none)
        else walk level (pte_ppa pte) vaddr satp m t

  abbrev pub after_search : ℕ → ℕ → Sv39Mmu → S → Option Found → Option (Walked S)
  after_search vaddr satp m s none = none
  after_search vaddr satp m s (some (cache, some i)) =
      some (record m { tlb_get_cache = cache }, s, some i)
  after_search vaddr satp m s (some (cache, none)) =
      if not (get_field Satp.mode satp == 8)
      then some (m, s, none)
      else walk 2 (get_field Satp.ppn satp * 2 ^ 12) vaddr satp m s

  abbrev pub after_lookup : ℕ → ℕ → Sv39Mmu → S → Option ℕ → Option (Walked S)
  after_lookup vaddr satp m s (some i) = some (m, s, some i)
  after_lookup vaddr satp m s none =
      after_search vaddr satp m s (search vaddr satp m.tlb 0 (m.tlb_get_cache, none))

  unfoldable pub get_tlb_entry : ℕ → ℕ → Sv39Mmu → S → Option (Walked S)
  get_tlb_entry vaddr satp m s =
      if is_canonical vaddr then after_lookup vaddr satp m s (cache_lookup vaddr satp m) else none
