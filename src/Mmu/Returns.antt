-- ===== src/Mmu/Returns.antt =====
-- getTLBEntry returns: no assertion fails for an address in canonical form.
use m_emu.Base.{
  ℕ, zero, suc, ◌+◌, ◌*◌, ◌/◌, ◌%◌, ◌^◌, ◌<◌, ◌≡◌, refl, sym, ap, ◌∙◌, true, false, Option, none,
  some, List, ◌==◌, subst, inl, inr, Bool-cases, arith,
}
use m_emu.Words.{get_field, from_le}
use m_emu.Rv64.{Sv39Mmu}
use m_emu.Rv64.Satp
use m_emu.Mmu.Tlb.{
  entry_at, cache_lookup, Found, pte_ppa, is_valid_leaf_pte, is_valid_dir_pte, write_tlb,
  get_tlb_index_to_swap_out,
}
use m_emu.Mmu.Walk.{
  SysBus, Walked, wrote, with_pte, walk, vpn, after_search, after_lookup, get_tlb_entry,
  is_canonical,
}
use m_emu.Mmu.Cache.{TlbIsValid}
use m_emu.Mmu.Table.{
  is_leaf, is_directory, frame_of, slot, Walks, TakesIn, is_leaf_lem, is_directory_lem, pte_ppa_lem,
  index_lem, write_tlb-TakesIn,
}
use m_emu.Mmu.Search.{AtMostOne, search-Returns}
use m_emu.Mmu.Sound.{Suffix, Resolved, get_tlb_entry-Resolved}

-- Where the walk of the page table from a level on leaves the MMU `m` and the bus: with an entry
-- that it has taken in for the page that it found, or as it was and without an entry.
pub data Walk {S : Type 0} (bus : SysBus S) (vaddr satp level table : ℕ) (m : Sv39Mmu) (s : S)
    : Walked S → Type 0 where
  found :
      (n : Sv39Mmu) (t : S) (i pte size : ℕ)
      → Walks bus vaddr level table s t (some (size, pte))
      → TakesIn m n i pte size vaddr satp
      → Walk bus vaddr satp level table m s (n, t, some i)
  missing :
      (t : S)
      → Walks bus vaddr level table s t none
      → Walk bus vaddr satp level table m s (m, t, none)

-- Where the result of getTLBEntry comes from: an entry of the TLB as it was, or else, if satp has
-- the mode 8 of Sv39, the walk from its page table on, and no entry in any other mode.
pub data Origin {S : Type 0} (bus : SysBus S) (vaddr satp : ℕ) (m : Sv39Mmu) (s : S)
    : Walked S → Type 0 where
  cached : (n : Sv39Mmu) (i : ℕ) → n.tlb ≡ m.tlb → Origin bus vaddr satp m s (n, s, some i)
  bare : (satp / 2 ^ 60 % 2 ^ 4 == 8) ≡ false → Origin bus vaddr satp m s (m, s, none)
  walked :
      (w : Walked S)
      → (satp / 2 ^ 60 % 2 ^ 4 == 8) ≡ true
      → Walk bus vaddr satp 2 (satp % 2 ^ 44 * 2 ^ 12) m s w
      → Origin bus vaddr satp m s w

module _ {S : Type 0} (bus : SysBus S) (vaddr satp : ℕ) where
  -- A bus that answers every read of a page table entry.
  abbrev pub Answers : Type 0
  Answers = (addr : ℕ) (s : S) → (t : S) × (bytes : List ℕ) × (bus.read addr 8 s ≡ (t, some bytes))

  abbrev Returns : (Walked S → Type 0) → Option (Walked S) → Type 0
  Returns P o = (w : Walked S) × (o ≡ some w) × P w

  with_pte-Returns :
      {P : Walked S → Type 0} (r : S × Option (List ℕ)) (k : S → ℕ → Option (Walked S)) (t : S)
      (bytes : List ℕ)
      → r ≡ (t, some bytes)
      → Returns P (k t (from_le bytes))
      → Returns P (with_pte bus r k)
  with_pte-Returns r k t bytes e h = rw e h

  -- A leaf at a level: its page is taken into the TLB.
  leaf_found :
      (level table : ℕ) (m : Sv39Mmu) (s t : S) (bytes : List ℕ) (size : ℕ)
      → TlbIsValid m
      → size ≡ level + 1
      → bus.read (slot level table vaddr) 8 s ≡ (t, some bytes)
      → is_leaf (from_le bytes) ≡ true
      → Walk bus vaddr satp level table m s (wrote t (write_tlb (from_le bytes) size vaddr satp m))
  unfolding write_tlb get_tlb_index_to_swap_out
  leaf_found level table m s t bytes size v same e y =
      Walk.found _ t _ (from_le bytes) size
        (subst (λ n. Walks bus vaddr level table s t (some (n, from_le bytes))) (sym same)
          (Walks.page level table s t bytes e y))
        (write_tlb-TakesIn (from_le bytes) size vaddr satp m v)

  -- A directory at a level: what the next level leaves.
  below :
      (level table : ℕ) (m : Sv39Mmu) (s t : S) (bytes : List ℕ) (w : Walked S)
      → bus.read (slot (suc level) table vaddr) 8 s ≡ (t, some bytes)
      → is_directory (from_le bytes) ≡ true
      → Walk bus vaddr satp level (frame_of (from_le bytes)) m t w
      → Walk bus vaddr satp (suc level) table m s w
  below level table m s t bytes w e d (found n u i pte size walks taken) =
      Walk.found n u i pte size (Walks.down level table s t u bytes _ e d walks) taken
  below level table m s t bytes w e d (missing u walks) =
      Walk.missing u (Walks.down level table s t u bytes _ e d walks)

  read_slot :
      (level table : ℕ) (s t : S) (bytes : List ℕ)
      → level < 3
      → bus.read (table + vpn level vaddr * 8) 8 s ≡ (t, some bytes)
      → bus.read (slot level table vaddr) 8 s ≡ (t, some bytes)
  read_slot level table s t bytes lt e =
      subst (λ k. bus.read (table + k * 8) 8 s ≡ (t, some bytes)) (index_lem level vaddr lt) e

  walk-Returns :
      (level table : ℕ) (m : Sv39Mmu) (s : S)
      → level < 3
      → TlbIsValid m
      → Answers
      → Returns (Walk bus vaddr satp level table m s) (walk bus level table vaddr satp m s)
  unfolding walk
  walk-Returns zero table m s lt v a =
      let (t, bytes, e) = a (table + vpn 0 vaddr * 8) s in
      let here = read_slot 0 table s t bytes lt e in
      let pte = from_le bytes in
      with_pte-Returns _ _ t bytes e (elim (Bool-cases (is_valid_leaf_pte pte)) [
        | inl y ↦
            rw y (_, refl, leaf_found 0 table m s t bytes 1 v refl here (sym (is_leaf_lem pte) ∙ y))
        | inr n ↦ rw n (
          _,
          refl,
          Walk.missing t
              (Walks.no_page 0 table s t bytes here (sym (is_leaf_lem pte) ∙ n) (inl refl)),
        )
      ])
  walk-Returns (suc level) table m s lt v a =
      let (t, bytes, e) = a (table + vpn (suc level) vaddr * 8) s in
      let here = read_slot (suc level) table s t bytes lt e in
      let pte = from_le bytes in
      with_pte-Returns _ _ t bytes e (elim (Bool-cases (is_valid_leaf_pte pte)) [
        | inl y ↦ rw y (
          _,
          refl,
          leaf_found (suc level) table m s t bytes (level + 2) v (omega arith) here
              (sym (is_leaf_lem pte) ∙ y),
        )
        | inr n ↦ elim (Bool-cases (is_valid_dir_pte pte)) [
          | inl d ↦
              let (w, q, r) = walk-Returns level (pte_ppa pte) m t (omega arith) v a in
              rw (n, d)
                (
                  w,
                  q,
                  below level table m s t bytes w here (sym (is_directory_lem pte) ∙ d)
                      (subst (λ p. Walk bus vaddr satp level p m t w) (pte_ppa_lem pte) r),
                )
          | inr d ↦
              rw (n, d)
                (
                  _,
                  refl,
                  Walk.missing t (
                      Walks.no_page (suc level) table s t bytes here (sym (is_leaf_lem pte) ∙ n)
                        (inr (sym (is_directory_lem pte) ∙ d))),
                )
        ]
      ])

  -- The fields of satp, written out.
  from_root :
      (m : Sv39Mmu) (s : S) (w : Walked S)
      → (get_field Satp.mode satp == 8) ≡ true
      → Walk bus vaddr satp 2 (get_field Satp.ppn satp * 2 ^ 12) m s w
      → Origin bus vaddr satp m s w
  unfolding get_field
  from_root m s w y r =
      let start : satp / 1 % 2 ^ 44 ≡ satp % 2 ^ 44 = omega arith in
      Origin.walked w y (subst (λ p. Walk bus vaddr satp 2 (p * 2 ^ 12) m s w) start r)

  from_bare :
      (m : Sv39Mmu) (s : S)
      → (get_field Satp.mode satp == 8) ≡ false
      → Origin bus vaddr satp m s (m, s, none)
  unfolding get_field
  from_bare m s n = Origin.bare n

  after_search-Returns :
      (m : Sv39Mmu) (s : S) (f : Found) (o : Option Found)
      → TlbIsValid m
      → Answers
      → o ≡ some f
      → Returns (Origin bus vaddr satp m s) (after_search bus vaddr satp m s o)
  after_search-Returns m s (cache, some i) o v a e =
      rw e (_, refl, Origin.cached (record m { tlb_get_cache = cache }) i refl)
  after_search-Returns m s (cache, none) o v a e =
      rw e (elim (Bool-cases (get_field Satp.mode satp == 8)) [
        | inl y ↦
            let (w, q, r) =
              walk-Returns 2 (get_field Satp.ppn satp * 2 ^ 12) m s (omega arith) v a in
            rw y (w, q, from_root m s w y r)
        | inr n ↦ rw n (_, refl, from_bare m s n)
      ])

  after_lookup-Returns :
      (m : Sv39Mmu) (s : S) (o : Option ℕ)
      → TlbIsValid m
      → Answers
      → AtMostOne vaddr satp m.tlb
      → Returns (Origin bus vaddr satp m s) (after_lookup bus vaddr satp m s o)
  after_lookup-Returns m s (some i) v a u = (_, refl, Origin.cached m i refl)
  after_lookup-Returns m s none v a u =
      let all : Suffix m.tlb 0 m.tlb = (omega arith, λ j. ap (entry_at m.tlb) (omega arith)) in
      let (f, e) = search-Returns vaddr satp 0 m.tlb m.tlb m.tlb_get_cache none all u tt in
      after_search-Returns m s f _ v a e

  -- For an address in canonical form, in a valid TLB of which at most one entry translates it,
  -- and with a bus that answers the reads of page table entries, getTLBEntry returns, leaves a
  -- valid TLB, and gives no entry but one with the page of the address, for the address space or
  -- global. The entry is one of the TLB as it was; or satp has the mode of Sv39, the entry is the
  -- only new one and has the physical address, the size and the permissions of the page that the
  -- page table in memory, read from satp's on by the bits of the address, gives for it. It gives
  -- none only in another mode or where the page table has no page for the address.
  pub get_tlb_entry-returns :
      (m : Sv39Mmu) (s : S)
      → TlbIsValid m
      → AtMostOne vaddr satp m.tlb
      → Answers
      → is_canonical vaddr ≡ true
      → (w : Walked S) × (get_tlb_entry bus vaddr satp m s ≡ some w)
        × Resolved vaddr satp (some w)
        × Origin bus vaddr satp m s w
  unfolding get_tlb_entry
  get_tlb_entry-returns m s v u a c =
      let (w, e, origin) = after_lookup-Returns m s (cache_lookup vaddr satp m) v a u in
      let done : get_tlb_entry bus vaddr satp m s ≡ some w = rw c e in
      (
        w,
        done,
        subst (Resolved vaddr satp) done (get_tlb_entry-Resolved bus vaddr satp m s v),
        origin,
      )
