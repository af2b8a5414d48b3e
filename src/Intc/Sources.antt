-- ===== src/Intc/Sources.antt =====
-- intDevMap of ClintIntCtrl_CEmuAdapter.h and PLICIntCtrl_CEmuAdapter.h, which are the same text: a
-- std::map from interrupt numbers to devices, in the order of the numbers. A device, which the map
-- holds as a pointer, is a number.
use m_emu.Base.{ℕ, Option, none, some, List, [], ◌∷◌, ltb, ◌==◌, if◌then◌else◌, find_key, erase_key}
use m_emu.Device.{ReturnFeedback}

-- A new key, before the first greater one.
unfoldable pub insert_key : ℕ → ℕ → List (ℕ × ℕ) → List (ℕ × ℕ)
insert_key k v [] = (k, v) ∷ []
insert_key k v ((a, h) ∷ rest) =
    let later = insert_key k v rest in if ltb k a then (k, v) ∷ (a, h) ∷ rest else (a, h) ∷ later

-- RegisterDev_IntCtrl_API
unfoldable pub register_dev : ℕ → ℕ → List (ℕ × ℕ) → List (ℕ × ℕ) × ReturnFeedback
register_dev int_id dev m = elim (find_key int_id m) [
  | some allocated ↦ (m, ReturnFeedback.intnum_conflict)
  | none ↦ (insert_key int_id dev m, ReturnFeedback.ok)
]

-- UnregisterDev_IntCtrl_API with a number
unfoldable pub unregister_int : ℕ → List (ℕ × ℕ) → List (ℕ × ℕ) × ReturnFeedback
unregister_int int_id m = elim (find_key int_id m) [
  | some allocated ↦ (erase_key int_id m, ReturnFeedback.ok)
  | none ↦ (m, ReturnFeedback.not_found)
]

-- The first number of a device.
unfoldable pub find_dev : ℕ → List (ℕ × ℕ) → Option ℕ
find_dev dev [] = none
find_dev dev ((a, h) ∷ rest) = let later = find_dev dev rest in if h == dev then some a else later

-- UnregisterDev_IntCtrl_API with a device
unfoldable pub unregister_dev : ℕ → List (ℕ × ℕ) → List (ℕ × ℕ) × ReturnFeedback
unregister_dev dev m = elim (find_dev dev m) [
  | some int_id ↦ unregister_int int_id m
  | none ↦ (m, ReturnFeedback.not_found)
]
