-- ===== src/Tests/Amo.antt =====
-- The theorems on atomic operations at concrete inputs.
use m_emu.Base.{ℕ, ◌≡◌, refl, true, false, some, List, [], ◌∷◌}
use m_emu.Words.{get_field}
use m_emu.Rv64.{ExecFeedback, Rv64Core}
use m_emu.Mmu.{SysBus, is_bare, is_reserved, vaddr_load_reserved, vaddr_store_conditional}
use m_emu.Mmu.Reservation.{vaddr_store_conditional-vaddr_load_reserved}
use m_emu.Tests.Samples.{raw_core}

-- A memory of one cell.
abbrev cell_bus : SysBus (List ℕ)
cell_bus = record { read = λ addr size m. (m, some m); write = λ addr bytes m. (bytes, true) }

raw_core-is_bare : is_bare raw_core ≡ true
unfolding get_field
raw_core-is_bare = refl

vaddr_store_conditional-vaddr_load_reserved_example :
    (s1 s2 : Rv64Core) × (vaddr_load_reserved cell_bus 0x80 4 raw_core (1 ∷ [])
      ≡ some (s1, 1 ∷ [], ExecFeedback.exec_ok, 1 ∷ []))
    × (vaddr_store_conditional cell_bus 0x80 4 (7 ∷ []) s1 (1 ∷ [])
        ≡ some (s2, 7 ∷ [], ExecFeedback.exec_ok, some false))
    × ((addr n : ℕ) → is_reserved cell_bus addr n s2 ≡ false)
vaddr_store_conditional-vaddr_load_reserved_example =
    vaddr_store_conditional-vaddr_load_reserved cell_bus 0x80 4 (7 ∷ []) (1 ∷ []) raw_core (1 ∷ [])
      (1 ∷ []) (7 ∷ []) raw_core-is_bare refl refl
