-- ===== src/Mmu/Sound.antt =====
-- getTLBEntry gives entries that translate, whichever way it finds them.
use m_emu.Base.{
  ℕ, zero, suc, ◌+◌, ◌*◌, ◌^◌, ◌<◌, ◌≡◌, refl, sym, ap, ◌∙◌, Bool, true, false, not, Option, none,
  some, List, [], ◌∷◌, length, ◌==◌, if◌then◌else◌, subst, inl, inr, Bool-cases, arith,
}
use m_emu.Words.{get_field, from_le}
use m_emu.Rv64.{TlbEntry, Sv39Mmu}
use m_emu.Rv64.Satp
use m_emu.Mmu.Tlb.{
  page_of, page_bits, entry_at, write_tlb, cache_lookup, entry_matches, Found, take_entry, search,
  pte_ppa, is_valid_leaf_pte, is_valid_dir_pte,
}
use m_emu.Mmu.Walk.{
  SysBus, Walked, wrote, with_pte, walk, after_search, after_lookup, get_tlb_entry, is_canonical,
}
use m_emu.Mmu.Cache.{
  Points, TlbIsValid, Translates, insert-Points, write_tlb-TlbIsValid, write_tlb-Translates,
  cache_lookup-Translates,
}

-- What the linear search may leave.
FoundIsValid : ℕ → ℕ → List TlbEntry → Found → Type 0
FoundIsValid vaddr satp tlb (cache, none) = Points tlb cache
FoundIsValid vaddr satp tlb (cache, some i) = Points tlb cache × Translates vaddr satp tlb i

SearchIsValid : ℕ → ℕ → List TlbEntry → Option Found → Type 0
SearchIsValid vaddr satp tlb none = Unit {0}
SearchIsValid vaddr satp tlb (some found) = FoundIsValid vaddr satp tlb found

matches-vpa :
    (vaddr satp : ℕ) (e : TlbEntry)
    → entry_matches vaddr satp e ≡ true
    → e.vpa ≡ page_of (page_bits e.pagesize) vaddr
unfolding entry_matches
matches-vpa vaddr satp e h = ground arith

-- `es` is what is left of the TLB from the entry `i` on.
abbrev pub Suffix : List TlbEntry → ℕ → List TlbEntry → Type 0
Suffix tlb i es = (i + length es ≡ length tlb) × ((j : ℕ) → entry_at tlb (i + j) ≡ entry_at es j)

pub Suffix-tail :
    (tlb es : List TlbEntry) (i : ℕ) (e : TlbEntry) → Suffix tlb i (e ∷ es) → Suffix tlb (i + 1) es
unfolding entry_at
Suffix-tail tlb es i e s = (
  omega (arith, s.0),
  λ j. let shift : i + 1 + j ≡ i + suc j = omega arith in rw shift (s.1 (suc j)),
)

take_entry-FoundIsValid :
    (vaddr satp i : ℕ) (tlb : List TlbEntry) (found : Found)
    → i < length tlb
    → entry_matches vaddr satp (entry_at tlb i) ≡ true
    → FoundIsValid vaddr satp tlb found
    → SearchIsValid vaddr satp tlb
        (take_entry (page_of (page_bits (entry_at tlb i).pagesize) vaddr) i found)
unfolding FoundIsValid SearchIsValid
take_entry-FoundIsValid vaddr satp i tlb (cache, none) lt m v = (
  subst (λ k. Points tlb ((k, i) ∷ cache)) (matches-vpa vaddr satp (entry_at tlb i) m)
      (insert-Points tlb cache i lt v),
  (lt, m),
)
take_entry-FoundIsValid vaddr satp i tlb (cache, some j) lt m v = tt

taken :
    (vaddr satp i : ℕ) (tlb es : List TlbEntry) (e : TlbEntry) (found : Found)
    → Suffix tlb i (e ∷ es)
    → entry_matches vaddr satp e ≡ true
    → FoundIsValid vaddr satp tlb found
    → SearchIsValid vaddr satp tlb (take_entry (page_of (page_bits e.pagesize) vaddr) i found)
unfolding entry_at
taken vaddr satp i tlb es e found s m v =
    let z : i + 0 ≡ i = omega arith in
    let here : entry_at tlb i ≡ e = ap (entry_at tlb) (sym z) ∙ s.1 0 in
    subst
      (λ x.
        SearchIsValid vaddr satp tlb (take_entry (page_of (page_bits x.pagesize) vaddr) i found))
      here (take_entry-FoundIsValid vaddr satp i tlb found (omega (arith, s.0)) (rw here m) v)

continue_search :
    (vaddr satp i : ℕ) (tlb es : List TlbEntry) (o : Option Found)
    → ((next : Found)
        → FoundIsValid vaddr satp tlb next
        → SearchIsValid vaddr satp tlb (search vaddr satp es (i + 1) next))
    → SearchIsValid vaddr satp tlb o
    → SearchIsValid vaddr satp tlb
        (elim o [ none ↦ none | some next ↦ search vaddr satp es (i + 1) next ])
unfolding SearchIsValid
continue_search vaddr satp i tlb es none ih v = tt
continue_search vaddr satp i tlb es (some next) ih v = ih next v

search-SearchIsValid :
    (vaddr satp i : ℕ) (tlb es : List TlbEntry) (found : Found)
    → Suffix tlb i es
    → FoundIsValid vaddr satp tlb found
    → SearchIsValid vaddr satp tlb (search vaddr satp es i found)
unfolding SearchIsValid search
search-SearchIsValid vaddr satp i tlb [] found s v = v
search-SearchIsValid vaddr satp i tlb (e ∷ es) found s v =
    let ih : (next : Found)
        → FoundIsValid vaddr satp tlb next
        → SearchIsValid vaddr satp tlb (search vaddr satp es (i + 1) next) =
      λ next. search-SearchIsValid vaddr satp (i + 1) tlb es next (Suffix-tail tlb es i e s) in
    elim (Bool-cases (entry_matches vaddr satp e)) [
      | inl m ↦
          rw m (continue_search vaddr satp i tlb es _ ih (taken vaddr satp i tlb es e found s m v))
      | inr n ↦ rw n (ih found v)
    ]

-- What getTLBEntry leaves: a valid TLB, and an entry that translates the address if it gives one.
abbrev pub Resolved : {S : Type 0} → ℕ → ℕ → Option (Walked S) → Type 0
Resolved vaddr satp none = Unit {0}
Resolved vaddr satp (some (m, s, none)) = TlbIsValid m
Resolved vaddr satp (some (m, s, some i)) = TlbIsValid m × Translates vaddr satp m.tlb i

module _ {S : Type 0} (bus : SysBus S) (vaddr satp : ℕ) where
  wrote-Resolved :
      (pte pagesize : ℕ) (m : Sv39Mmu) (t : S)
      → not (page_bits pagesize == 0) ≡ true
      → TlbIsValid m
      → Resolved vaddr satp (some (wrote t (write_tlb pte pagesize vaddr satp m)))
  wrote-Resolved pte pagesize m t ok v = (
    write_tlb-TlbIsValid pte pagesize vaddr satp m v,
    write_tlb-Translates pte pagesize vaddr satp m ok v,
  )

  -- One level of the walk, with `next` for a directory entry.
  level-Resolved :
      (pagesize : ℕ) (m : Sv39Mmu) (t : S) (pte : ℕ) (next : Option (Walked S))
      → not (page_bits pagesize == 0) ≡ true
      → TlbIsValid m
      → Resolved vaddr satp next
      → Resolved vaddr satp (
          if is_valid_leaf_pte pte
          then some (wrote t (write_tlb pte pagesize vaddr satp m))
          else next)
  level-Resolved pagesize m t pte next ok v n = elim (Bool-cases (is_valid_leaf_pte pte)) [
    | inl y ↦ rw y (wrote-Resolved pte pagesize m t ok v)
    | inr y ↦ rw y n
  ]

  with_pte-Resolved :
      (r : S × Option (List ℕ)) (k : S → ℕ → Option (Walked S))
      → ((t : S) (pte : ℕ) → Resolved vaddr satp (k t pte))
      → Resolved vaddr satp (with_pte bus r k)
  with_pte-Resolved (t, none) k h = tt
  with_pte-Resolved (t, some bytes) k h = h t (from_le bytes)

  choose-Resolved :
      (b : Bool) (x y : Option (Walked S))
      → Resolved vaddr satp x
      → Resolved vaddr satp y
      → Resolved vaddr satp (if b then x else y)
  choose-Resolved true x y hx hy = hx
  choose-Resolved false x y hx hy = hy

  level_size : (level : ℕ) → level < 2 → not (page_bits (level + 2) == 0) ≡ true
  level_size zero lt = refl
  level_size (suc zero) lt = refl
  level_size (suc (suc level)) lt = absurd (omega arith)

  walk-Resolved :
      (level page_table_addr : ℕ) (m : Sv39Mmu) (s : S)
      → level < 3
      → TlbIsValid m
      → Resolved vaddr satp (walk bus level page_table_addr vaddr satp m s)
  unfolding walk
  walk-Resolved zero page_table_addr m s lt v =
      with_pte-Resolved _ _ (λ t pte. level-Resolved 1 m t pte _ refl v v)
  walk-Resolved (suc level) page_table_addr m s lt v = with_pte-Resolved _ _ (λ t pte.
      level-Resolved (level + 2) m t pte _ (level_size level (omega arith)) v (
        choose-Resolved (not (is_valid_dir_pte pte)) _ _ v
          (walk-Resolved level (pte_ppa pte) m t (omega arith) v)))

  after_search-Resolved :
      (m : Sv39Mmu) (s : S) (o : Option Found)
      → TlbIsValid m
      → SearchIsValid vaddr satp m.tlb o
      → Resolved vaddr satp (after_search bus vaddr satp m s o)
  unfolding SearchIsValid FoundIsValid
  after_search-Resolved m s none v f = tt
  after_search-Resolved m s (some (cache, some i)) v f =
      (record { count = v.count; next = v.next; points = f.0 }, f.1)
  after_search-Resolved m s (some (cache, none)) v f =
      choose-Resolved (not (get_field Satp.mode satp == 8)) _ _ v
        (walk-Resolved 2 (get_field Satp.ppn satp * 2 ^ 12) m s (omega arith) v)

  after_lookup-Resolved :
      (m : Sv39Mmu) (s : S) (o : Option ℕ)
      → TlbIsValid m
      → cache_lookup vaddr satp m ≡ o
      → Resolved vaddr satp (after_lookup bus vaddr satp m s o)
  unfolding FoundIsValid
  after_lookup-Resolved m s (some i) v e = (v, cache_lookup-Translates vaddr satp i m v e)
  after_lookup-Resolved m s none v e =
      let all : Suffix m.tlb 0 m.tlb = (omega arith, λ j. ap (entry_at m.tlb) (omega arith)) in
      after_search-Resolved m s _ v
        (search-SearchIsValid vaddr satp 0 m.tlb m.tlb (m.tlb_get_cache, none) all v.points)

  -- In a valid TLB, getTLBEntry leaves a valid TLB, and the entry that it gives (from the hash map,
  -- from the linear search or from the page table) has the page of the address, a valid page size
  -- and the address space of satp or the global bit. A failed assertion leaves nothing.
  pub get_tlb_entry-Resolved :
      (m : Sv39Mmu) (s : S) → TlbIsValid m → Resolved vaddr satp (get_tlb_entry bus vaddr satp m s)
  unfolding get_tlb_entry
  get_tlb_entry-Resolved m s v =
      choose-Resolved (is_canonical vaddr) _ _ (after_lookup-Resolved m s _ v refl) tt
