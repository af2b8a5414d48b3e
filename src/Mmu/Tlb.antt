-- ===== src/Mmu/Tlb.antt =====
-- The TLB of RV64SV39_MMU (M-EMU/modules/core/rv64/inline_impl/rv64_sv39.hpp): the swapping of
-- entries, the lookup through the hash map and the linear search, and the flush. A pointer into
-- the TLB is the index of the entry. `none` is a failed assertion where a result is optional.
use m_emu.Base.{
  ℕ, zero, suc, ◌+◌, ◌-◌, ◌*◌, ◌%◌, ◌^◌, Bool, false, not, ◌&&◌, ◌||◌, Option, none, some, List, [],
  ◌∷◌, ◌==◌, if◌then◌else◌, find_key, erase_key,
}
use m_emu.Words.{get_field}
use m_emu.Rv64.{TlbEntry, Sv39Mmu, tlb_size}
use m_emu.Rv64.Pte
use m_emu.Rv64.Satp

-- x & -(1 << k)
abbrev pub page_of : ℕ → ℕ → ℕ
page_of k x = x - x % 2 ^ k

-- The bits of the page offset by the page size of an entry; 0 is an invalid entry.
abbrev pub page_bits : ℕ → ℕ
page_bits pagesize =
    if pagesize == 1 then 12 else if pagesize == 2 then 21 else if pagesize == 3 then 30 else 0

abbrev pub no_entry : TlbEntry
no_entry = record {
  ppa = 0;
  vpa = 0;
  asid = 0;
  pagesize = 0;
  r = false;
  w = false;
  x = false;
  u = false;
  g = false;
  a = false;
  d = false;
}

-- tlb[i]
unfoldable pub entry_at : List TlbEntry → ℕ → TlbEntry
entry_at [] i = no_entry
entry_at (e ∷ es) zero = e
entry_at (e ∷ es) (suc i) = entry_at es i

unfoldable pub set_entry : List TlbEntry → ℕ → TlbEntry → List TlbEntry
set_entry [] i v = []
set_entry (e ∷ es) zero v = v ∷ es
set_entry (e ∷ es) (suc i) v = e ∷ set_entry es i v

abbrev pub flag : ℕ → Bool
flag n = not (n == 0)

-- ((PPN2 << 18) | (PPN1 << 9) | PPN0) << 12, whose fields do not overlap.
abbrev pub pte_ppa : ℕ → ℕ
pte_ppa pte =
    (get_field Pte.ppn2 pte * 2 ^ 18 + get_field Pte.ppn1 pte * 2 ^ 9 + get_field Pte.ppn0 pte)
    * 2 ^ 12

unfoldable pub is_valid_dir_pte : ℕ → Bool
is_valid_dir_pte pte =
    flag (get_field Pte.v pte)
    && not (flag (get_field Pte.r pte) || flag (get_field Pte.w pte) || flag (get_field Pte.x pte))
    && not (flag (get_field Pte.reserved pte))
    && not (flag (get_field Pte.pbmt pte))

unfoldable pub is_valid_leaf_pte : ℕ → Bool
is_valid_leaf_pte pte =
    flag (get_field Pte.v pte)
    && not (flag (get_field Pte.w pte) && not (flag (get_field Pte.r pte)))
    && (flag (get_field Pte.r pte) || flag (get_field Pte.w pte) || flag (get_field Pte.x pte))
    && not (flag (get_field Pte.reserved pte))
    && not (flag (get_field Pte.pbmt pte))

-- getTLBIndexToSwapOut
unfoldable pub get_tlb_index_to_swap_out : Sv39Mmu → Sv39Mmu × ℕ
get_tlb_index_to_swap_out m =
    (record m { last_swapped_index = (m.last_swapped_index + 1) % tlb_size }, m.last_swapped_index)

-- The entry that writeTLB makes of a leaf, for a page size of 1, 2 or 3.
unfoldable pub leaf_entry : ℕ → ℕ → ℕ → ℕ → TlbEntry
leaf_entry pte pagesize vaddr satp = record {
  ppa = pte_ppa pte;
  vpa = page_of (page_bits pagesize) vaddr;
  asid = get_field Satp.asid satp;
  pagesize = pagesize;
  r = flag (get_field Pte.r pte);
  w = flag (get_field Pte.w pte);
  x = flag (get_field Pte.x pte);
  u = flag (get_field Pte.u pte);
  g = flag (get_field Pte.g pte);
  a = flag (get_field Pte.a pte);
  d = flag (get_field Pte.d pte);
}

unfoldable pub write_tlb : ℕ → ℕ → ℕ → ℕ → Sv39Mmu → Sv39Mmu × ℕ
write_tlb pte pagesize vaddr satp m =
    let (m1, i) = get_tlb_index_to_swap_out m in
    let e = leaf_entry pte pagesize vaddr satp in
    (
      record m1 {
        tlb = set_entry m1.tlb i e;
        tlb_get_cache = (e.vpa, i) ∷ erase_key (entry_at m1.tlb i).vpa m1.tlb_get_cache;
      },
      i,
    )

abbrev pub matches_asid : TlbEntry → ℕ → Bool
matches_asid e satp = e.asid == get_field Satp.asid satp || e.g

-- One of the three lookups in the hash map, for a page size of 1, 2 or 3.
abbrev pub usable : ℕ → ℕ → Sv39Mmu → Option ℕ → Option ℕ
usable pagesize satp m none = none
usable pagesize satp m (some i) =
    let e = entry_at m.tlb i in
    if matches_asid e satp && e.pagesize == pagesize then some i else none

unfoldable pub cache_hit : ℕ → ℕ → ℕ → Sv39Mmu → Option ℕ
cache_hit pagesize vaddr satp m =
    usable pagesize satp m (find_key (page_of (page_bits pagesize) vaddr) m.tlb_get_cache)

abbrev pub or_else : Option ℕ → Option ℕ → Option ℕ
or_else none b = b
or_else (some i) b = some i

unfoldable pub cache_lookup : ℕ → ℕ → Sv39Mmu → Option ℕ
cache_lookup vaddr satp m =
    or_else (cache_hit 1 vaddr satp m)
      (or_else (cache_hit 2 vaddr satp m) (cache_hit 3 vaddr satp m))

-- The test of an entry in the linear search.
unfoldable pub entry_matches : ℕ → ℕ → TlbEntry → Bool
entry_matches vaddr satp e =
    matches_asid e satp
    && not (page_bits e.pagesize == 0)
    && page_of (page_bits e.pagesize) vaddr == e.vpa

-- The state of the linear search: the hash map and the entry found so far.
abbrev pub Found : Type 0
Found = List (ℕ × ℕ) × Option ℕ

-- A second entry that matches fails an assertion.
abbrev pub take_entry : ℕ → ℕ → Found → Option Found
take_entry key i (cache, none) = some ((key, i) ∷ cache, some i)
take_entry key i (cache, some j) = none

unfoldable pub search : ℕ → ℕ → List TlbEntry → ℕ → Found → Option Found
search vaddr satp [] i found = some found
search vaddr satp (e ∷ es) i found =
    if entry_matches vaddr satp e
    then elim (take_entry (page_of (page_bits e.pagesize) vaddr) i found) [
      | none ↦ none
      | some next ↦ search vaddr satp es (i + 1) next
    ]
    else search vaddr satp es (i + 1) found

-- One entry in SV39_FlushTLB_sfence_vma.
unfoldable pub flush_entry : ℕ → ℕ → TlbEntry → TlbEntry
flush_entry vaddr asid e =
    if (e.asid == asid || asid == 0)
      && (vaddr == 0
          || not (page_bits e.pagesize == 0)
            && page_of (page_bits e.pagesize) e.vpa == page_of (page_bits e.pagesize) vaddr)
    then record e { pagesize = 0 }
    else e

unfoldable pub flush_entries : ℕ → ℕ → List TlbEntry → List TlbEntry
flush_entries vaddr asid [] = []
flush_entries vaddr asid (e ∷ es) = flush_entry vaddr asid e ∷ flush_entries vaddr asid es

unfoldable pub flush_tlb : ℕ → ℕ → Sv39Mmu → Sv39Mmu
flush_tlb vaddr asid m = record m { tlb = flush_entries vaddr asid m.tlb }
