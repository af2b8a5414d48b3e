-- ===== src/Intc/Registration.antt =====
-- The registration of devices with a controller.
use m_emu.Base.{ℕ, ◌≡◌, refl, none, some, List, [], ◌∷◌, find_key, erase_key, arith}
use m_emu.Device.{ReturnFeedback}
use m_emu.Intc.Sources.{insert_key, register_dev, unregister_int}

find_key-insert_key :
    (k v : ℕ) (m : List (ℕ × ℕ)) → find_key k m ≡ none → find_key k (insert_key k v m) ≡ some v
unfolding find_key insert_key
find_key-insert_key k v [] e = ground arith
find_key-insert_key k v ((a, h) ∷ rest) e = ground (arith, find_key-insert_key k v rest)

erase_key_absent : (k : ℕ) (m : List (ℕ × ℕ)) → find_key k m ≡ none → erase_key k m ≡ m
unfolding find_key erase_key
erase_key_absent k [] e = refl
erase_key_absent k ((a, h) ∷ rest) e = ground (arith, erase_key_absent k rest)

erase_key-insert_key :
    (k v : ℕ) (m : List (ℕ × ℕ)) → find_key k m ≡ none → erase_key k (insert_key k v m) ≡ m
unfolding find_key erase_key insert_key
erase_key-insert_key k v [] e = ground arith
erase_key-insert_key k v ((a, h) ∷ rest) e =
    ground (arith, erase_key-insert_key k v rest, erase_key_absent k rest)

-- A number that no device has can be given to one; it is then refused to every device, and taking
-- it back leaves the map as it was.
pub unregister_int-register_dev :
    (int_id dev again : ℕ) (m : List (ℕ × ℕ))
    → find_key int_id m ≡ none
    → (n : List (ℕ × ℕ)) × (register_dev int_id dev m ≡ (n, ReturnFeedback.ok))
      × (register_dev int_id again n ≡ (n, ReturnFeedback.intnum_conflict))
      × (unregister_int int_id n ≡ (m, ReturnFeedback.ok))
unfolding register_dev unregister_int
unregister_int-register_dev int_id dev again m e = (
  insert_key int_id dev m,
  ground (arith, e),
  ground (arith, find_key-insert_key int_id dev m e),
  ground (arith, find_key-insert_key int_id dev m e, erase_key-insert_key int_id dev m e),
)
