-- ===== src/Tests/Plic.antt =====
-- The theorems on the interrupt controller at concrete inputs: three sources, two contexts.
use m_emu.Base.{ℕ, ◌≡◌, refl, not, [], ◌∷◌, arith, get_or, set, ◌==◌}
use m_emu.Device.{done}
use m_emu.Plic.{RvPliCtrl, get_int}
use m_emu.Plic.Scan.{Arbitrated, get_int-Arbitrated}

-- Sources 2 and 3 are pending and enabled for both contexts; context 0 has claimed source 3.
abbrev controller : RvPliCtrl
controller = record {
  priority = 0 ∷ 1 ∷ 2 ∷ 5 ∷ [];
  pending = 12 ∷ [];
  enable = (14 ∷ []) ∷ (14 ∷ []) ∷ [];
  threshold = 0 ∷ 0 ∷ [];
  claim = 3 ∷ 0 ∷ [];
  claimed = 0 ∷ [];
}

get_int-Arbitrated_example :
    (id : ℕ) × (get_int 3 2 1 controller
      ≡ done (record controller { claim = set controller.claim 1 id }, not (id == 0)))
    × (get_or (set controller.claim 1 id) 1 0 ≡ id)
    × Arbitrated controller 1 3 id
get_int-Arbitrated_example = get_int-Arbitrated 3 2 1 controller (omega arith) refl
