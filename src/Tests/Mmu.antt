-- ===== src/Tests/Mmu.antt =====
-- The theorems on address translation at concrete inputs.
use m_emu.Base.{
  ℕ, zero, suc, ◌*◌, ◌^◌, ◌≡◌, refl, true, false, none, some, List, [], ◌∷◌, replicate, find_key,
  ◌==◌, if◌then◌else◌, arith,
}
use m_emu.Words.{get_field}
use m_emu.Rv64.Satp
use m_emu.Mmu.{
  SysBus, Walked, walk, get_tlb_entry, is_canonical, flush_tlb, entry_at, entry_matches,
}
use m_emu.Mmu.Cache.{TlbIsValid}
use m_emu.Mmu.Sound.{Resolved}
use m_emu.Mmu.Search.{AtMostOne}
use m_emu.Mmu.Returns.{Origin, get_tlb_entry-returns}
use m_emu.Mmu.Flush.{get_tlb_entry-flush_tlb}
use m_emu.Tests.Samples.{blank_entry, blank_mmu}

-- A memory that holds, everywhere, a leaf with all permissions, for the page 4.
abbrev leaf_bytes : List ℕ
leaf_bytes = 0xdf ∷ 0x10 ∷ 0 ∷ 0 ∷ 0 ∷ 0 ∷ 0 ∷ 0 ∷ []

abbrev leaf_bus : SysBus ℕ
leaf_bus = record { read = λ addr size s. (s, some leaf_bytes); write = λ addr bytes s. (s, false) }

abbrev sv39 : ℕ
sv39 = 8 * 2 ^ 60

blank_mmu-TlbIsValid : TlbIsValid blank_mmu
unfolding find_key
blank_mmu-TlbIsValid = record {
  count = refl;
  next = omega arith;
  points = λ k i e. absurd (grind arith);
}

canonical : is_canonical 0x1234 ≡ true
unfolding is_canonical get_field
canonical = refl

get_tlb_entry-flush_tlb_example : get_tlb_entry leaf_bus 0x1234 sv39 (flush_tlb 0 0 blank_mmu) 0 ≡ (
    if get_field Satp.mode sv39 == 8
    then walk leaf_bus 2 (get_field Satp.ppn sv39 * 2 ^ 12) 0x1234 sv39 (flush_tlb 0 0 blank_mmu) 0
    else some (flush_tlb 0 0 blank_mmu, 0, none))
get_tlb_entry-flush_tlb_example = get_tlb_entry-flush_tlb leaf_bus 0x1234 sv39 blank_mmu 0 canonical

-- No entry of the blank TLB is valid.
blank_none : (n i : ℕ) → entry_matches 0x1234 sv39 (entry_at (replicate n blank_entry) i) ≡ false
unfolding entry_matches entry_at
blank_none zero i = ground arith
blank_none (suc n) zero = ground arith
blank_none (suc n) (suc i) = blank_none n i

blank_mmu-AtMostOne : AtMostOne 0x1234 sv39 blank_mmu.tlb
blank_mmu-AtMostOne = λ i j p q. absurd (ground (arith, p.1, blank_none 32 i))

get_tlb_entry-returns_example :
    (w : Walked ℕ) × (get_tlb_entry leaf_bus 0x1234 sv39 blank_mmu 0 ≡ some w)
    × Resolved 0x1234 sv39 (some w)
    × Origin leaf_bus 0x1234 sv39 blank_mmu 0 w
get_tlb_entry-returns_example =
    get_tlb_entry-returns leaf_bus 0x1234 sv39 blank_mmu 0 blank_mmu-TlbIsValid blank_mmu-AtMostOne
      (λ addr s. (s, leaf_bytes, refl)) canonical
