-- ===== src/Mmu/Cache.antt =====
-- The TLB and its hash map agree, and what getTLBEntry returns translates the address.
use m_emu.Base.{
  ℕ, zero, suc, ◌<◌, ◌≡◌, ◌≢◌, refl, sym, ap, ◌∙◌, Bool, true, false, not, ◌&&◌, ◌||◌, Option, none,
  some, List, [], ◌∷◌, length, ◌==◌, if◌then◌else◌, find_key, find_key-erase_key, erase_key, subst,
  inl, inr, ◌⊎◌, arith,
}
use m_emu.Rv64.{TlbEntry, Sv39Mmu}
use m_emu.Mmu.Tlb.{
  page_of, page_bits, entry_at, set_entry, leaf_entry, write_tlb, matches_asid, cache_hit,
  cache_lookup, usable, or_else, entry_matches, get_tlb_index_to_swap_out,
}

pub entry_at-set_entry_self :
    (es : List TlbEntry) (i : ℕ) (v : TlbEntry) → i < length es → entry_at (set_entry es i v) i ≡ v
unfolding entry_at set_entry
entry_at-set_entry_self [] i v lt = absurd (omega arith)
entry_at-set_entry_self (e ∷ es) zero v lt = refl
entry_at-set_entry_self (e ∷ es) (suc i) v lt = entry_at-set_entry_self es i v (omega arith)

pub entry_at-set_entry :
    (es : List TlbEntry) (i j : ℕ) (v : TlbEntry)
    → i ≢ j
    → entry_at (set_entry es i v) j ≡ entry_at es j
unfolding entry_at set_entry
entry_at-set_entry [] i j v ne = refl
entry_at-set_entry (e ∷ es) zero zero v ne = absurd (ne refl)
entry_at-set_entry (e ∷ es) zero (suc j) v ne = refl
entry_at-set_entry (e ∷ es) (suc i) zero v ne = refl
entry_at-set_entry (e ∷ es) (suc i) (suc j) v ne = entry_at-set_entry es i j v (λ p. ne (ap suc p))

length-set_entry :
    (es : List TlbEntry) (i : ℕ) (v : TlbEntry) → length (set_entry es i v) ≡ length es
unfolding set_entry
length-set_entry [] i v = refl
length-set_entry (e ∷ es) zero v = refl
length-set_entry (e ∷ es) (suc i) v = ap suc (length-set_entry es i v)

-- Every pointer of a hash map points to the entry whose page is its key.
abbrev pub Points : List TlbEntry → List (ℕ × ℕ) → Type 0
Points tlb cache =
    (k i : ℕ) → find_key k cache ≡ some i → (i < length tlb) × ((entry_at tlb i).vpa ≡ k)

pub record TlbIsValid (m : Sv39Mmu) : Type 0 where
  pub count : length m.tlb ≡ 32
  pub next : m.last_swapped_index < 32
  pub points : Points m.tlb m.tlb_get_cache

pub insert-Points :
    (tlb : List TlbEntry) (cache : List (ℕ × ℕ)) (i : ℕ)
    → i < length tlb
    → Points tlb cache
    → Points tlb (((entry_at tlb i).vpa, i) ∷ cache)
unfolding find_key
insert-Points tlb cache i lt p k j e = grind (arith, p k j)

differ_of : (a b : ℕ) → (a == b) ≡ false → a ≢ b
differ_of a b e p = absurd (ground (arith, e, p))

swap-Points :
    (tlb : List TlbEntry) (cache : List (ℕ × ℕ)) (i : ℕ) (v : TlbEntry)
    → Points tlb cache
    → Points (set_entry tlb i v) (erase_key (entry_at tlb i).vpa cache)
swap-Points tlb cache i v p k j e =
    let (ne, f) = find_key-erase_key (entry_at tlb i).vpa k j cache e in
    let (lt, q) = p k j f in
    let apart : i ≢ j =
      λ r. differ_of k (entry_at tlb i).vpa ne (sym q ∙ ap (λ n. (entry_at tlb n).vpa) (sym r)) in
    (rw (length-set_entry tlb i v) lt, rw (entry_at-set_entry tlb i j v apart) q)

pub write_tlb-TlbIsValid :
    (pte pagesize vaddr satp : ℕ) (m : Sv39Mmu)
    → TlbIsValid m
    → TlbIsValid (write_tlb pte pagesize vaddr satp m).0
unfolding write_tlb get_tlb_index_to_swap_out
write_tlb-TlbIsValid pte pagesize vaddr satp m v =
    let i = m.last_swapped_index in
    let e = leaf_entry pte pagesize vaddr satp in
    let lt : i < length (set_entry m.tlb i e) = rw (length-set_entry m.tlb i e, v.count) v.next in
    let here : entry_at (set_entry m.tlb i e) i ≡ e =
      entry_at-set_entry_self m.tlb i e (rw v.count v.next) in
    record {
      count = length-set_entry m.tlb i e ∙ v.count;
      next = omega arith;
      points =
          subst
            (λ vpa.
              Points (set_entry m.tlb i e)
                ((vpa, i) ∷ erase_key (entry_at m.tlb i).vpa m.tlb_get_cache))
            (ap (λ x. x.vpa) here)
            (insert-Points (set_entry m.tlb i e) (erase_key (entry_at m.tlb i).vpa m.tlb_get_cache)
              i lt (swap-Points m.tlb m.tlb_get_cache i e v.points));
    }

-- An entry that translates an address for an address space.
abbrev pub Translates : ℕ → ℕ → List TlbEntry → ℕ → Type 0
Translates vaddr satp tlb i = (i < length tlb) × (entry_matches vaddr satp (entry_at tlb i) ≡ true)

tests_hold : (a b : ℕ) (g p : Bool) → p ≡ true → ((a == a || g) && p && b == b) ≡ true
tests_hold a b g p e = ground arith

leaf_entry-entry_matches :
    (pte pagesize vaddr satp : ℕ)
    → not (page_bits pagesize == 0) ≡ true
    → entry_matches vaddr satp (leaf_entry pte pagesize vaddr satp) ≡ true
unfolding leaf_entry entry_matches
leaf_entry-entry_matches pte pagesize vaddr satp ok =
    let e = leaf_entry pte pagesize vaddr satp in
    tests_hold e.asid (page_of (page_bits pagesize) vaddr) e.g (not (page_bits pagesize == 0)) ok

pub write_tlb-Translates :
    (pte pagesize vaddr satp : ℕ) (m : Sv39Mmu)
    → not (page_bits pagesize == 0) ≡ true
    → TlbIsValid m
    → Translates vaddr satp
        (write_tlb pte pagesize vaddr satp m).0.tlb
        (write_tlb pte pagesize vaddr satp m).1
unfolding write_tlb get_tlb_index_to_swap_out
write_tlb-Translates pte pagesize vaddr satp m ok v =
    let i = m.last_swapped_index in
    let e = leaf_entry pte pagesize vaddr satp in
    let lt : i < length (set_entry m.tlb i e) = rw (length-set_entry m.tlb i e, v.count) v.next in
    let here : entry_at (set_entry m.tlb i e) i ≡ e =
      entry_at-set_entry_self m.tlb i e (rw v.count v.next) in
    (lt, rw here (leaf_entry-entry_matches pte pagesize vaddr satp ok))

if_some : (b : Bool) (j i : ℕ) → (if b then some j else none) ≡ some i → (b ≡ true) × (j ≡ i)
if_some b j i e = grind arith

hit_tests :
    (vaddr satp pagesize : ℕ) (x : TlbEntry)
    → not (page_bits pagesize == 0) ≡ true
    → (matches_asid x satp && x.pagesize == pagesize) ≡ true
    → x.vpa ≡ page_of (page_bits pagesize) vaddr
    → entry_matches vaddr satp x ≡ true
unfolding entry_matches
hit_tests vaddr satp pagesize x ok t q =
    let size : x.pagesize ≡ pagesize = ground arith in
    let asid : matches_asid x satp ≡ true = ground arith in rw (size, q, asid, ok) (ground arith)

usable-Translates :
    (pagesize vaddr satp i : ℕ) (m : Sv39Mmu) (o : Option ℕ)
    → not (page_bits pagesize == 0) ≡ true
    → TlbIsValid m
    → find_key (page_of (page_bits pagesize) vaddr) m.tlb_get_cache ≡ o
    → usable pagesize satp m o ≡ some i
    → Translates vaddr satp m.tlb i
usable-Translates pagesize vaddr satp i m none ok v f e = absurd (grind arith)
usable-Translates pagesize vaddr satp i m (some j) ok v f e =
    let (lt, q) = v.points (page_of (page_bits pagesize) vaddr) j f in
    let (t, same) =
      if_some (matches_asid (entry_at m.tlb j) satp && (entry_at m.tlb j).pagesize == pagesize) j i
        e in
    subst (Translates vaddr satp m.tlb) same
      (lt, hit_tests vaddr satp pagesize (entry_at m.tlb j) ok t q)

or_else-some : (a b : Option ℕ) (i : ℕ) → or_else a b ≡ some i → (a ≡ some i) ⊎ (b ≡ some i)
or_else-some none b i e = inr e
or_else-some (some j) b i e = inl e

-- An entry that the hash map gives translates the address.
pub cache_lookup-Translates :
    (vaddr satp i : ℕ) (m : Sv39Mmu)
    → TlbIsValid m
    → cache_lookup vaddr satp m ≡ some i
    → Translates vaddr satp m.tlb i
unfolding cache_lookup cache_hit
cache_lookup-Translates vaddr satp i m v e = elim (or_else-some (cache_hit 1 vaddr satp m) _ i e) [
  | inl h ↦ usable-Translates 1 vaddr satp i m _ refl v refl h
  | inr rest ↦ elim (or_else-some (cache_hit 2 vaddr satp m) _ i rest) [
    | inl h ↦ usable-Translates 2 vaddr satp i m _ refl v refl h
    | inr h ↦ usable-Translates 3 vaddr satp i m _ refl v refl h
  ]
]
