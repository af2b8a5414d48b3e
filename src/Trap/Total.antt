-- ===== src/Trap/Total.antt =====
-- The interrupt check: it never stops the emulator, keeps the registers legal, and raises only an
-- interrupt that is pending and enabled.
use m_emu.Base.{ℕ, zero, suc, ◌≡◌, sym, ◌∙◌, true, false, arith, Bool-cases, inl, inr, ◌⊎◌}
use m_emu.Words.{test_bit, test_bit_of_lt, test_bit-zero_word, word_ext}
use m_emu.Rv64.{bits_to_int_type, m_mode_int_mask}
use m_emu.Csr.Legal.{IsWithin}
use m_emu.Trap.Interrupt.{no_interrupt}

-- None of the six interrupt bits is set.
abbrev NoneSet : ℕ → Type 0
NoneSet b =
    (test_bit b 1 ≡ false)
    × (test_bit b 3 ≡ false)
    × (test_bit b 5 ≡ false)
    × (test_bit b 7 ≡ false)
    × (test_bit b 9 ≡ false)
    × (test_bit b 11 ≡ false)

-- The mask has no bit from 12 on.
above :
    (i : ℕ)
    → test_bit m_mode_int_mask
        (suc (suc (suc (suc (suc (suc (suc (suc (suc (suc (suc (suc i))))))))))))
      ≡ true
    → ⊥
above i h = ground (
  arith,
  test_bit_of_lt 12 m_mode_int_mask
      (suc (suc (suc (suc (suc (suc (suc (suc (suc (suc (suc (suc i)))))))))))) (omega arith)
      (omega arith),
)

-- The bits of the mask.
abbrev IsInterruptBit : ℕ → Type 0
IsInterruptBit i = (i ≡ 1) ⊎ (i ≡ 3) ⊎ (i ≡ 5) ⊎ (i ≡ 7) ⊎ (i ≡ 9) ⊎ (i ≡ 11)

m_mask_bits : (i : ℕ) → test_bit m_mode_int_mask i ≡ true → IsInterruptBit i
unfolding test_bit
m_mask_bits zero h = cc
m_mask_bits (suc zero) h = omega arith
m_mask_bits (suc (suc zero)) h = cc
m_mask_bits (suc (suc (suc zero))) h = omega arith
m_mask_bits (suc (suc (suc (suc zero)))) h = cc
m_mask_bits (suc (suc (suc (suc (suc zero))))) h = omega arith
m_mask_bits (suc (suc (suc (suc (suc (suc zero)))))) h = cc
m_mask_bits (suc (suc (suc (suc (suc (suc (suc zero))))))) h = omega arith
m_mask_bits (suc (suc (suc (suc (suc (suc (suc (suc zero)))))))) h = cc
m_mask_bits (suc (suc (suc (suc (suc (suc (suc (suc (suc zero))))))))) h = omega arith
m_mask_bits (suc (suc (suc (suc (suc (suc (suc (suc (suc (suc zero)))))))))) h = cc
m_mask_bits (suc (suc (suc (suc (suc (suc (suc (suc (suc (suc (suc zero))))))))))) h = omega arith
m_mask_bits (suc (suc (suc (suc (suc (suc (suc (suc (suc (suc (suc (suc i)))))))))))) h =
    absurd (above i h)

pub no_interrupt-zero :
    (b : ℕ) → IsWithin m_mode_int_mask b → no_interrupt (bits_to_int_type b) ≡ true → b ≡ 0
unfolding no_interrupt bits_to_int_type IsWithin
no_interrupt-zero b within h =
    let none_set : NoneSet b = ground arith in
    let clear : (i : ℕ) → test_bit b i ≡ true → test_bit b i ≡ false =
      λ i set. ground (arith, m_mask_bits i (within i set)) in
    word_ext b 0 λ i. elim (Bool-cases (test_bit b i)) [
      | inl set ↦ clear i set ∙ sym (test_bit-zero_word i)
      | inr off ↦ off ∙ sym (test_bit-zero_word i)
    ]
