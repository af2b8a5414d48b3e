-- ===== src/Mmu/Search.antt =====
-- The linear search of getTLBEntry ends where at most one entry translates the address.
use m_emu.Base.{
  ℕ, ◌+◌, ◌<◌, ◌≡◌, refl, sym, ap, ◌∙◌, Option, none, some, List, [], ◌∷◌, inl, inr, Bool-cases,
  arith,
}
use m_emu.Rv64.{TlbEntry}
use m_emu.Mmu.Tlb.{page_of, page_bits, entry_at, entry_matches, Found, take_entry, search}
use m_emu.Mmu.Cache.{Translates}
use m_emu.Mmu.Sound.{Suffix, Suffix-tail}

-- No two entries translate the same address.
abbrev pub AtMostOne : ℕ → ℕ → List TlbEntry → Type 0
AtMostOne vaddr satp tlb =
    (i j : ℕ) → Translates vaddr satp tlb i → Translates vaddr satp tlb j → i ≡ j

-- What is known of the entry found before the index `i`.
abbrev Before : ℕ → ℕ → List TlbEntry → ℕ → Option ℕ → Type 0
Before vaddr satp tlb i none = Unit {0}
Before vaddr satp tlb i (some k) = (k < i) × Translates vaddr satp tlb k

Before-next :
    (vaddr satp i : ℕ) (tlb : List TlbEntry) (o : Option ℕ)
    → Before vaddr satp tlb i o
    → Before vaddr satp tlb (i + 1) o
Before-next vaddr satp i tlb none b = tt
Before-next vaddr satp i tlb (some k) b = (omega (arith, b.0), b.1)

continue_Returns :
    (vaddr satp i : ℕ) (tlb es : List TlbEntry) (e : TlbEntry) (cache : List (ℕ × ℕ)) (o : Option ℕ)
    → ((c : List (ℕ × ℕ)) (p : Option ℕ)
        → Before vaddr satp tlb (i + 1) p
        → (f : Found) × (search vaddr satp es (i + 1) (c, p) ≡ some f))
    → Translates vaddr satp tlb i
    → AtMostOne vaddr satp tlb
    → Before vaddr satp tlb i o
    → (f : Found) × ((elim (take_entry (page_of (page_bits e.pagesize) vaddr) i (cache, o)) [
      | none ↦ none
      | some next ↦ search vaddr satp es (i + 1) next
    ])
        ≡ some f)
continue_Returns vaddr satp i tlb es e cache none ih t u b =
    ih ((page_of (page_bits e.pagesize) vaddr, i) ∷ cache) (some i) (omega arith, t)
continue_Returns vaddr satp i tlb es e cache (some k) ih t u b =
    let same : k ≡ i = u k i b.1 t in absurd (omega (arith, b.0))

pub search-Returns :
    (vaddr satp i : ℕ) (tlb es : List TlbEntry) (cache : List (ℕ × ℕ)) (o : Option ℕ)
    → Suffix tlb i es
    → AtMostOne vaddr satp tlb
    → Before vaddr satp tlb i o
    → (f : Found) × (search vaddr satp es i (cache, o) ≡ some f)
unfolding search entry_at
search-Returns vaddr satp i tlb [] cache o s u b = ((cache, o), refl)
search-Returns vaddr satp i tlb (e ∷ es) cache o s u b =
    let ih : (c : List (ℕ × ℕ)) (p : Option ℕ)
        → Before vaddr satp tlb (i + 1) p
        → (f : Found) × (search vaddr satp es (i + 1) (c, p) ≡ some f) =
      λ c p. search-Returns vaddr satp (i + 1) tlb es c p (Suffix-tail tlb es i e s) u in
    let z : i + 0 ≡ i = omega arith in
    let here : entry_at tlb i ≡ e = ap (entry_at tlb) (sym z) ∙ s.1 0 in
    elim (Bool-cases (entry_matches vaddr satp e)) [
      | inl m ↦
          rw m
            (continue_Returns vaddr satp i tlb es e cache o ih (omega (arith, s.0), rw here m) u b)
      | inr n ↦ rw n (ih cache o (Before-next vaddr satp i tlb o b))
    ]
