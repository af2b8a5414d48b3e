-- ===== src/Ram/Laws.antt =====
-- What a read of the memory returns after a write.
use m_emu.Base.{
  ℕ, zero, suc, ◌+◌, ◌≤◌, ◌≡◌, refl, ap, ◌⊎◌, inl, inr, List, [], ◌∷◌, length, take, drop, arith,
}
use m_emu.Words.{slice, splice, slice-splice, length-splice}
use m_emu.Device.{done}
use m_emu.Ram.Defs.{MmioMem, read_buffer, write_buffer}

-- Bytes before, or after, the place of a write stay.
take-splice : (n off : ℕ) (buf xs : List ℕ) → n ≤ off → take n (splice off buf xs) ≡ take n xs
unfolding splice
take-splice zero off buf xs le = refl
take-splice (suc n) zero buf xs le = absurd (omega arith)
take-splice (suc n) (suc off) buf [] le = refl
take-splice (suc n) (suc off) buf (x ∷ xs) le =
    ap (λ t. x ∷ t) (take-splice n off buf xs (omega arith))

drop-splice :
    (n off : ℕ) (buf xs : List ℕ) → off + length buf ≤ n → drop n (splice off buf xs) ≡ drop n xs
unfolding splice
drop-splice n zero [] xs le = refl
drop-splice zero zero (b ∷ buf) xs le = absurd (omega arith)
drop-splice (suc n) zero (b ∷ buf) [] le = refl
drop-splice (suc n) zero (b ∷ buf) (x ∷ xs) le = drop-splice n zero buf xs (omega arith)
drop-splice zero (suc off) buf xs le = absurd (omega arith)
drop-splice (suc n) (suc off) buf [] le = refl
drop-splice (suc n) (suc off) buf (x ∷ xs) le = drop-splice n off buf xs (omega arith)

slice-splice_before :
    (a n off : ℕ) (buf xs : List ℕ) → a + n ≤ off → slice a n (splice off buf xs) ≡ slice a n xs
unfolding slice splice
slice-splice_before zero n off buf xs le = take-splice n off buf xs (omega arith)
slice-splice_before (suc a) n zero buf xs le = absurd (omega arith)
slice-splice_before (suc a) n (suc off) buf [] le = refl
slice-splice_before (suc a) n (suc off) buf (x ∷ xs) le =
    slice-splice_before a n off buf xs (omega arith)

slice-splice_apart :
    (a n off : ℕ) (buf xs : List ℕ)
    → (a + n ≤ off) ⊎ (off + length buf ≤ a)
    → slice a n (splice off buf xs) ≡ slice a n xs
unfolding slice
slice-splice_apart a n off buf xs (inl le) = slice-splice_before a n off buf xs le
slice-splice_apart a n off buf xs (inr le) = ap (take n) (drop-splice a off buf xs le)

-- A write within the memory succeeds, and a read of the same place returns the bytes written.
pub read_buffer-write_buffer :
    (off : ℕ) (buf : List ℕ) (m : MmioMem)
    → off + length buf ≤ length m.mem_data
    → (n : MmioMem) × (write_buffer off buf m ≡ done n)
      × (read_buffer off (length buf) n ≡ done buf)
unfolding read_buffer write_buffer
read_buffer-write_buffer off buf m le = (
  record m { mem_data = splice off buf m.mem_data },
  ground arith,
  rw (slice-splice off buf m.mem_data le, length-splice off buf m.mem_data) (ground arith),
)

-- A write within the memory changes no read of a place that lies wholly before or wholly after
-- what is written, whether that read is within the memory or a fault.
pub read_buffer-write_buffer_apart :
    (off a size : ℕ) (buf : List ℕ) (m : MmioMem)
    → off + length buf ≤ length m.mem_data
    → (a + size ≤ off) ⊎ (off + length buf ≤ a)
    → (n : MmioMem) × (write_buffer off buf m ≡ done n)
      × (read_buffer a size n ≡ read_buffer a size m)
unfolding read_buffer write_buffer
read_buffer-write_buffer_apart off a size buf m le apart = (
  record m { mem_data = splice off buf m.mem_data },
  ground arith,
  rw (slice-splice_apart a size off buf m.mem_data apart, length-splice off buf m.mem_data) refl,
)
