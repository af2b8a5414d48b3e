-- ===== src/Device/Memcpy.antt =====
-- What do_read and do_write of the devices come to, and the `memcpy` of their registers.
use m_emu.Base.{ℕ, ◌+◌, ◌%◌, ◌^◌, List, length, leb, if◌then◌else◌}
use m_emu.Words.{slice, splice}

-- `failed` is the result `false`; `fault` is an access outside the object, which C++ leaves
-- undefined, or a failed assertion.
pub data Access {ℓ} (A : Type ℓ) : Type ℓ where
  done : A → Access A
  failed fault : Access A

-- `start_addr + size` on 64 bits.
abbrev pub end_addr : ℕ → ℕ → ℕ
end_addr start_addr size = (start_addr + size) % 2 ^ 64

-- memcpy(buffer, object + off, size)
abbrev pub copy_out : ℕ → ℕ → List ℕ → Access (List ℕ)
copy_out off size object =
    if leb (off + size) (length object) then done (slice off size object) else fault

-- memcpy(object + off, buffer, size), for a buffer of `size` bytes
abbrev pub copy_in : ℕ → List ℕ → List ℕ → Access (List ℕ)
copy_in off buffer object =
    if leb (off + length buffer) (length object) then done (splice off buffer object) else fault

abbrev pub map_access {ℓ κ} : {A : Type ℓ} {B : Type κ} → (A → B) → Access A → Access B
map_access f (done a) = done (f a)
map_access f failed = failed
map_access f fault = fault
