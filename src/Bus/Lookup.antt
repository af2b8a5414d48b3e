-- ===== src/Bus/Lookup.antt =====
-- The lookup of a device through the cache.
use m_emu.Base.{find_key, ℕ, ◌≡◌, refl, sym, Option, none, some, arith}
use m_emu.Bus.Defs.{MmioBus, first_in_range, remember, use_cached, find_dev_according_to_addr}

abbrev pub linear : MmioBus → ℕ → Option ℕ
linear b addr = first_in_range b.objects addr b.mmio_devs

-- What the cache holds is what the search finds.
unfoldable pub CacheIsValid : MmioBus → Type 0
CacheIsValid b = (addr h : ℕ) → find_key addr b.dev_find_cache ≡ some h → linear b addr ≡ some h

remember-CacheIsValid :
    (addr : ℕ) (b : MmioBus) (o : Option ℕ)
    → linear b addr ≡ o
    → CacheIsValid b
    → CacheIsValid (remember addr b o).0
unfolding CacheIsValid find_key
remember-CacheIsValid addr b none e v = v
remember-CacheIsValid addr b (some h) e v = λ a k c. grind (arith, v a k)

remember-found : (addr : ℕ) (b : MmioBus) (o : Option ℕ) → (remember addr b o).1 ≡ o
remember-found addr b none = refl
remember-found addr b (some h) = refl

use_cached_lem :
    (addr : ℕ) (b : MmioBus) (o : Option ℕ)
    → find_key addr b.dev_find_cache ≡ o
    → CacheIsValid b
    → ((use_cached addr b o).1 ≡ linear b addr) × CacheIsValid (use_cached addr b o).0
unfolding CacheIsValid
use_cached_lem addr b none e v =
    (remember-found addr b (linear b addr), remember-CacheIsValid addr b (linear b addr) refl v)
use_cached_lem addr b (some h) e v = (sym (v addr h e), v)

-- When the cache holds what the linear search finds, the lookup through the cache finds what the
-- search finds, and the cache keeps on holding what the search finds.
pub find_dev_according_to_addr-linear :
    (addr : ℕ) (b : MmioBus)
    → CacheIsValid b
    → ((find_dev_according_to_addr addr b).1 ≡ linear b addr)
      × CacheIsValid (find_dev_according_to_addr addr b).0
unfolding find_dev_according_to_addr
find_dev_according_to_addr-linear addr b v =
    use_cached_lem addr b (find_key addr b.dev_find_cache) refl v
