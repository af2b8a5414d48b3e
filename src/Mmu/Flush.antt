-- ===== src/Mmu/Flush.antt =====
-- What is left of the TLB after sfence.vma without operands.
use m_emu.Base.{
  ℕ, zero, suc, ◌+◌, ◌*◌, ◌^◌, ◌≡◌, refl, ap, ◌∙◌, Bool, true, false, not, Option, none, some, List,
  [], ◌∷◌, ◌==◌, if◌then◌else◌, arith,
}
use m_emu.Words.{get_field}
use m_emu.Rv64.{TlbEntry, Sv39Mmu}
use m_emu.Rv64.Satp
use m_emu.Mmu.Tlb.{
  entry_at, flush_entry, flush_entries, flush_tlb, entry_matches, cache_hit, cache_lookup, usable,
  Found, search,
}
use m_emu.Mmu.Walk.{SysBus, walk, after_search, get_tlb_entry, is_canonical}

flush_entries-pagesize :
    (es : List TlbEntry) (i : ℕ) → (entry_at (flush_entries 0 0 es) i).pagesize ≡ 0
unfolding entry_at flush_entries flush_entry
flush_entries-pagesize [] i = refl
flush_entries-pagesize (e ∷ es) zero = ground arith
flush_entries-pagesize (e ∷ es) (suc i) = flush_entries-pagesize es i

usable-flush :
    (pagesize satp : ℕ) (m : Sv39Mmu) (o : Option ℕ)
    → (0 == pagesize) ≡ false
    → usable pagesize satp (flush_tlb 0 0 m) o ≡ none
unfolding flush_tlb
usable-flush pagesize satp m none ne = refl
usable-flush pagesize satp m (some i) ne = rw (flush_entries-pagesize m.tlb i) (ground arith)

cache_lookup-flush_tlb :
    (vaddr satp : ℕ) (m : Sv39Mmu) → cache_lookup vaddr satp (flush_tlb 0 0 m) ≡ none
unfolding cache_lookup cache_hit
cache_lookup-flush_tlb vaddr satp m =
    rw (usable-flush 1 satp m _ refl, usable-flush 2 satp m _ refl) (usable-flush 3 satp m _ refl)

entry_matches-flush_entry :
    (vaddr satp : ℕ) (e : TlbEntry) → entry_matches vaddr satp (flush_entry 0 0 e) ≡ false
unfolding entry_matches flush_entry
entry_matches-flush_entry vaddr satp e = ground arith

search-flush_entries :
    (vaddr satp i : ℕ) (es : List TlbEntry) (found : Found)
    → search vaddr satp (flush_entries 0 0 es) i found ≡ some found
unfolding search flush_entries
search-flush_entries vaddr satp i [] found = refl
search-flush_entries vaddr satp i (e ∷ es) found =
    rw (entry_matches-flush_entry vaddr satp e) (search-flush_entries vaddr satp (i + 1) es found)

if_not {ℓ} : {A : Type ℓ} (b : Bool) (x y : A) → (if not b then x else y) ≡ (if b then y else x)
if_not true x y = refl
if_not false x y = refl

-- After sfence.vma without an address and an address space, every canonical address is looked up
-- in the page table of satp (or has no entry, when the mode is not Sv39): no earlier translation
-- is used, neither from the TLB nor from its hash map.
pub get_tlb_entry-flush_tlb :
    {S : Type 0} (bus : SysBus S) (vaddr satp : ℕ) (m : Sv39Mmu) (s : S)
    → is_canonical vaddr ≡ true
    → get_tlb_entry bus vaddr satp (flush_tlb 0 0 m) s ≡ (
        if get_field Satp.mode satp == 8
        then walk bus 2 (get_field Satp.ppn satp * 2 ^ 12) vaddr satp (flush_tlb 0 0 m) s
        else some (flush_tlb 0 0 m, s, none))
unfolding get_tlb_entry flush_tlb
get_tlb_entry-flush_tlb bus vaddr satp m s c =
    rw (c, cache_lookup-flush_tlb vaddr satp m)
      (ap (after_search bus vaddr satp (flush_tlb 0 0 m) s)
          (search-flush_entries vaddr satp 0 m.tlb (m.tlb_get_cache, none))
        ∙ if_not (get_field Satp.mode satp == 8) _ _)
