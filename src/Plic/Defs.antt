-- ===== src/Plic/Defs.antt =====
-- RVPLICtrl (modules/intc/rv_plic/include/RVPLICtrl.hpp) for `nr_source` sources and `nr_context`
-- contexts. Addresses are offsets into the device. An index outside its array is a `fault`. The
-- four bytes of the buffer are taken as the uint32_t that they hold.
use m_emu.Base.{
  ℕ, zero, suc, ◌+◌, ◌-◌, ◌*◌, ◌/◌, ◌%◌, ◌^◌, Bool, not, ◌&&◌, ◌||◌, List, [], bit_and, bit_or,
  length, get_or, set, replicate, ltb, leb, ◌==◌, if◌then◌else◌,
}
use m_emu.Words.{test_bit}
use m_emu.Device.{Access, done, failed, fault, end_addr}

pub record RvPliCtrl : Type 0 where
  pub priority : List ℕ
  pub pending : List ℕ
  pub enable : List (List ℕ)
  pub threshold : List ℕ
  pub claim : List ℕ
  pub claimed : List ℕ

-- array[i], where `k` continues with its value
abbrev pub at_index {ℓ κ} : {A : Type ℓ} {B : Type κ} → A → List A → ℕ → (A → Access B) → Access B
at_index d xs i k = if ltb i (length xs) then k (get_or xs i d) else fault

-- array[i] |= 1u << b
abbrev pub set_bit : List ℕ → ℕ → ℕ → List ℕ
set_bit xs i b = set xs i (bit_or (get_or xs i 0) (2 ^ b))

-- array[i] &= ~(1u << b)
abbrev pub clear_bit : List ℕ → ℕ → ℕ → List ℕ
clear_bit xs i b = set xs i (bit_and (get_or xs i 0) (2 ^ 32 - 1 - 2 ^ b))

-- (array[i / 32] >> (i % 32)) & 1
abbrev pub source_bit : List ℕ → ℕ → Bool
source_bit xs i = test_bit (get_or xs (i / 32) 0) (i % 32)

-- The best interrupt found so far: max_priority and max_priority_int.
abbrev pub Best : Type 0
Best = ℕ × ℕ

module _ (nr_source nr_context : ℕ) where
  abbrev pub nr_words : ℕ
  nr_words = (nr_source + 1 + 31) / 32

  unfoldable pub create : RvPliCtrl
  create = record {
    priority = replicate (nr_source + 1) 0;
    pending = replicate nr_words 0;
    enable = replicate nr_context (replicate nr_words 0);
    threshold = replicate nr_context 0;
    claim = replicate nr_context 0;
    claimed = replicate nr_words 0;
  }

unfoldable pub update_ext : ℕ → Bool → RvPliCtrl → Access RvPliCtrl
update_ext source_id fired p =
    if fired
    then (if ltb (source_id / 32) (length p.pending)
        then done (record p { pending = set_bit p.pending (source_id / 32) (source_id % 32) })
        else fault)
    else done p

-- The test of source `i` in the loop of get_int.
unfoldable pub eligible : RvPliCtrl → ℕ → ℕ → Bool
eligible p context_id i =
    leb (get_or p.threshold context_id 0) (get_or p.priority i 0)
    && source_bit p.pending i
    && source_bit (get_or p.enable context_id []) i
    && not (source_bit p.claimed i)

abbrev pub better : RvPliCtrl → ℕ → ℕ → Best → Best
better p context_id i best =
    if eligible p context_id i && ltb best.0 (get_or p.priority i 0)
    then (get_or p.priority i 0, i)
    else best

-- The loop over the sources 1 to `n`.
unfoldable pub scan : RvPliCtrl → ℕ → ℕ → Best
scan p context_id zero = (0, 0)
scan p context_id (suc n) = better p context_id (suc n) (scan p context_id n)

module _ (nr_source nr_context : ℕ) where
  unfoldable pub get_int : ℕ → RvPliCtrl → Access (RvPliCtrl × Bool)
  get_int context_id p =
      let id = (scan p context_id nr_source).1 in
      if ltb context_id nr_context
      then done (record p { claim = set p.claim context_id id }, not (id == 0))
      else fault

  -- `start_addr - base` on 64 bits.
  abbrev pub offset_from : ℕ → ℕ → ℕ
  offset_from base start_addr = (start_addr + 2 ^ 64 - base) % 2 ^ 64

  abbrev pub priority_refused : ℕ → Bool
  priority_refused start_addr =
      start_addr == 0
      || ltb (4 * nr_source) start_addr
      || ltb (4 * (nr_source + 1)) (end_addr start_addr 4)

  read_claim : ℕ → ℕ → RvPliCtrl → Access (RvPliCtrl × ℕ)
  read_claim context_id offset p =
      if offset == 0
      then at_index 0 p.threshold context_id (λ v. done (p, v))
      else if offset == 4
      then at_index 0 p.claim context_id (λ id.
        if ltb (id / 32) (length p.claimed)
        then done (record p { claimed = set_bit p.claimed (id / 32) (id % 32) }, id)
        else fault)
      else failed

  unfoldable pub do_read : ℕ → ℕ → RvPliCtrl → Access (RvPliCtrl × ℕ)
  unfolding read_claim
  do_read start_addr size p =
      let last = end_addr start_addr size in
      if not (size == 4)
      then fault
      else if leb last 0x1000
      then (if priority_refused start_addr
          then failed
          else at_index 0 p.priority (start_addr / 4) (λ v. done (p, v)))
      else if leb last 0x1080
      then (let idx = offset_from 0x1000 start_addr / 4 in
          if ltb nr_source idx then failed else at_index 0 p.pending idx (λ v. done (p, v)))
      else if leb last 0x2000
      then failed
      else if leb last 0x200000
      then (let context_id = offset_from 0x2000 start_addr / 0x80 in
          let pos = start_addr % 0x80 in
          if leb nr_context context_id
          then failed
          else if ltb nr_source pos
          then failed
          else at_index [] p.enable context_id (λ words. at_index 0 words pos (λ v. done (p, v))))
      else (let context_id = offset_from 0x200000 start_addr / 0x1000 in
          if ltb nr_context context_id
          then failed
          else read_claim context_id (start_addr % 0x1000) p)

  write_claim : ℕ → ℕ → ℕ → RvPliCtrl → Access RvPliCtrl
  write_claim context_id offset v p =
      if offset == 0
      then at_index 0 p.threshold context_id
          (λ _. done (record p { threshold = set p.threshold context_id v }))
      else if offset == 4
      then (if ltb (v / 32) (length p.claimed) && ltb (v / 32) (length p.pending)
          then done (record p {
            claimed = clear_bit p.claimed (v / 32) (v % 32);
            pending = clear_bit p.pending (v / 32) (v % 32);
          })
          else fault)
      else failed

  unfoldable pub do_write : ℕ → ℕ → ℕ → RvPliCtrl → Access RvPliCtrl
  unfolding write_claim
  do_write start_addr size v p =
      let last = end_addr start_addr size in
      if leb last 0x1000
      then (if start_addr == 0
          then failed
          else if ltb (4 * nr_source) start_addr || ltb (4 * (nr_source + 1)) last
          then failed
          else at_index 0 p.priority (start_addr / 4)
              (λ _. done (record p { priority = set p.priority (start_addr / 4) v })))
      else if leb last 0x1080
      then done p
      else if leb last 0x2000
      then failed
      else if leb last 0x200000
      then (let context_id = offset_from 0x2000 start_addr / 0x80 in
          let pos = start_addr % 0x80 in
          if leb nr_context context_id
          then failed
          else if ltb nr_source pos
          then failed
          else at_index [] p.enable context_id (λ words.
            at_index 0 words pos
              (λ _. done (record p { enable = set p.enable context_id (set words pos v) }))))
      else (let context_id = offset_from 0x200000 start_addr / 0x1000 in
          if ltb nr_context context_id
          then failed
          else write_claim context_id (start_addr % 0x1000) v p)
