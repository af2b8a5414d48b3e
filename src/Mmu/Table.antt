-- ===== src/Mmu/Table.antt =====
-- The page table of Sv39 as the architecture reads it, next to getTLBEntry of RV64SV39_MMU: which
-- page table entry an address leads to, and what the TLB keeps of it.
use m_emu.Base.{
  ℕ, zero, suc, ◌+◌, ◌*◌, ◌/◌, ◌%◌, ◌^◌, ◌<◌, ◌≡◌, ◌≢◌, ◌⊎◌, refl, sym, Bool, true, false, not,
  ◌&&◌, ◌||◌, Option, none, some, List, ◌==◌, subst, arith,
}
use m_emu.Words.{field, get_field, get-lt, test_bit, from_le}
use m_emu.Rv64.{TlbEntry, Sv39Mmu}
use m_emu.Rv64.Pte
use m_emu.Rv64.Satp
use m_emu.Mmu.Tlb.{
  page_of, page_bits, entry_at, flag, pte_ppa, is_valid_leaf_pte, is_valid_dir_pte, leaf_entry,
  write_tlb, get_tlb_index_to_swap_out,
}
use m_emu.Mmu.Walk.{SysBus, vpn}
use m_emu.Mmu.Cache.{TlbIsValid, entry_at-set_entry_self, entry_at-set_entry}

-- The bits that this version of the architecture leaves at zero.
abbrev pub is_plain : ℕ → Bool
is_plain pte = pte / 2 ^ 54 % 2 ^ 7 == 0 && pte / 2 ^ 61 % 2 ^ 2 == 0

-- A page: valid, readable or executable, and writable only if it is readable.
abbrev pub is_leaf : ℕ → Bool
is_leaf pte =
    test_bit pte 0
    && (test_bit pte 1 || test_bit pte 3)
    && (test_bit pte 1 || not (test_bit pte 2))
    && is_plain pte

-- A page table of the next level: valid, with none of the three permissions.
abbrev pub is_directory : ℕ → Bool
is_directory pte =
    test_bit pte 0
    && not (test_bit pte 1)
    && not (test_bit pte 2)
    && not (test_bit pte 3)
    && is_plain pte

-- The physical address: 44 bits of page number from bit 10 on.
abbrev pub frame_of : ℕ → ℕ
frame_of pte = pte / 2 ^ 10 % 2 ^ 44 * 2 ^ 12

-- The place of the entry of an address in the table of a level.
abbrev pub slot : ℕ → ℕ → ℕ → ℕ
slot level table vaddr = table + vaddr / 2 ^ (12 + 9 * level) % 2 ^ 9 * 8

-- The walk from the table of a level on takes the bus from one state to another, and ends at an
-- entry with the size of its page, or at none.
pub data Walks {S : Type 0} (bus : SysBus S) (vaddr : ℕ)
    : ℕ → ℕ → S → S → Option (ℕ × ℕ) → Type 0 where
  page :
      (level table : ℕ) (s t : S) (bytes : List ℕ)
      → bus.read (slot level table vaddr) 8 s ≡ (t, some bytes)
      → is_leaf (from_le bytes) ≡ true
      → Walks bus vaddr level table s t (some (level + 1, from_le bytes))
  no_page :
      (level table : ℕ) (s t : S) (bytes : List ℕ)
      → bus.read (slot level table vaddr) 8 s ≡ (t, some bytes)
      → is_leaf (from_le bytes) ≡ false
      → (level ≡ 0) ⊎ (is_directory (from_le bytes) ≡ false)
      → Walks bus vaddr level table s t none
  down :
      (level table : ℕ) (s t u : S) (bytes : List ℕ) (o : Option (ℕ × ℕ))
      → bus.read (slot (suc level) table vaddr) 8 s ≡ (t, some bytes)
      → is_directory (from_le bytes) ≡ true
      → Walks bus vaddr level (frame_of (from_le bytes)) t u o
      → Walks bus vaddr (suc level) table s u o

-- What the TLB keeps of the page table entry of a page.
pub record IsEntry (e : TlbEntry) (pte size vaddr satp : ℕ) : Type 0 where
  pub ppa : e.ppa ≡ frame_of pte
  pub vpa : e.vpa ≡ page_of (page_bits size) vaddr
  pub asid : e.asid ≡ satp / 2 ^ 44 % 2 ^ 16
  pub pagesize : e.pagesize ≡ size
  pub r : e.r ≡ test_bit pte 1
  pub w : e.w ≡ test_bit pte 2
  pub x : e.x ≡ test_bit pte 3
  pub u : e.u ≡ test_bit pte 4
  pub g : e.g ≡ test_bit pte 5
  pub a : e.a ≡ test_bit pte 6
  pub d : e.d ≡ test_bit pte 7

flag_lem : (n : ℕ) → n < 2 → flag n ≡ (n == 1)
flag_lem n lt = ground arith

flag-bit : (k pte : ℕ) → flag (get_field (field k 1) pte) ≡ test_bit pte k
unfolding test_bit get_field
flag-bit k pte = flag_lem (get_field (field k 1) pte) (get-lt (field k 1) pte)

pub pte_ppa_lem : (pte : ℕ) → pte_ppa pte ≡ frame_of pte
unfolding get_field
pte_ppa_lem pte = omega arith

leaf_tests :
    (v r w x p q : Bool)
    → (v && not (w && not r) && (r || w || x) && not (not p) && not (not q))
      ≡ (v && (r || x) && (r || not w) && (p && q))
leaf_tests v r w x p q = ground arith

directory_tests :
    (v r w x p q : Bool)
    → (v && not (r || w || x) && not (not p) && not (not q))
      ≡ (v && not r && not w && not x && (p && q))
directory_tests v r w x p q = ground arith

plain_lem :
    (pte : ℕ) → (get_field Pte.reserved pte == 0 && get_field Pte.pbmt pte == 0) ≡ is_plain pte
unfolding get_field
plain_lem pte = refl

pub is_leaf_lem : (pte : ℕ) → is_valid_leaf_pte pte ≡ is_leaf pte
unfolding is_valid_leaf_pte
is_leaf_lem pte =
    rw (flag-bit 0 pte, flag-bit 1 pte, flag-bit 2 pte, flag-bit 3 pte, sym (plain_lem pte))
      (leaf_tests (test_bit pte 0) (test_bit pte 1) (test_bit pte 2) (test_bit pte 3)
        (get_field Pte.reserved pte == 0) (get_field Pte.pbmt pte == 0))

pub is_directory_lem : (pte : ℕ) → is_valid_dir_pte pte ≡ is_directory pte
unfolding is_valid_dir_pte
is_directory_lem pte =
    rw (flag-bit 0 pte, flag-bit 1 pte, flag-bit 2 pte, flag-bit 3 pte, sym (plain_lem pte))
      (directory_tests (test_bit pte 0) (test_bit pte 1) (test_bit pte 2) (test_bit pte 3)
        (get_field Pte.reserved pte == 0) (get_field Pte.pbmt pte == 0))

pub index_lem :
    (level vaddr : ℕ) → level < 3 → vpn level vaddr ≡ vaddr / 2 ^ (12 + 9 * level) % 2 ^ 9
unfolding get_field
index_lem zero vaddr lt = refl
index_lem (suc zero) vaddr lt = refl
index_lem (suc (suc zero)) vaddr lt = refl
index_lem (suc (suc (suc n))) vaddr lt = absurd (omega arith)

asid_lem : (satp : ℕ) → get_field Satp.asid satp ≡ satp / 2 ^ 44 % 2 ^ 16
unfolding get_field
asid_lem satp = refl

leaf_entry-IsEntry :
    (pte size vaddr satp : ℕ) → IsEntry (leaf_entry pte size vaddr satp) pte size vaddr satp
unfolding leaf_entry
leaf_entry-IsEntry pte size vaddr satp = record {
  ppa = pte_ppa_lem pte;
  vpa = refl;
  asid = asid_lem satp;
  pagesize = refl;
  r = flag-bit 1 pte;
  w = flag-bit 2 pte;
  x = flag-bit 3 pte;
  u = flag-bit 4 pte;
  g = flag-bit 5 pte;
  a = flag-bit 6 pte;
  d = flag-bit 7 pte;
}

-- The MMU `m` has taken in the entry at the index `i`, and is left with the TLB of `n`.
pub record TakesIn (m n : Sv39Mmu) (i pte size vaddr satp : ℕ) : Type 0 where
  pub entry : IsEntry (entry_at n.tlb i) pte size vaddr satp
  pub others : (j : ℕ) → i ≢ j → entry_at n.tlb j ≡ entry_at m.tlb j

pub write_tlb-TakesIn :
    (pte size vaddr satp : ℕ) (m : Sv39Mmu)
    → TlbIsValid m
    → TakesIn m
        (write_tlb pte size vaddr satp m).0
        (write_tlb pte size vaddr satp m).1
        pte
        size
        vaddr
        satp
unfolding write_tlb get_tlb_index_to_swap_out
write_tlb-TakesIn pte size vaddr satp m v =
    let i = m.last_swapped_index in
    let e = leaf_entry pte size vaddr satp in
    record {
      entry =
          subst (λ x. IsEntry x pte size vaddr satp)
            (sym (entry_at-set_entry_self m.tlb i e (rw v.count v.next)))
            (leaf_entry-IsEntry pte size vaddr satp);
      others = λ j apart. entry_at-set_entry m.tlb i j e apart;
    }
