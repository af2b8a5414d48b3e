-- ===== src/Mmu/Frame.antt =====
-- What the MMU changes of the hart: its own state, and nothing else.
use m_emu.Base.{
  ℕ, Bool, true, false, not, ◌&&◌, ◌||◌, ◌==◌, ◌+◌, ◌%◌, ◌^◌, ◌++◌, [], Option, none, some, List,
  if◌then◌else◌,
}
use m_emu.Rv64.{Sv39Mmu, TlbEntry, Rv64Core, priv_num}
use m_emu.Rv64.Satp
use m_emu.Words.{get_field, le_bytes}
use m_emu.Mmu.Walk.{SysBus, Walked}
use m_emu.Mmu.Tlb.{entry_at, page_bits}
use m_emu.Mmu.Access.{
  crosses_page, is_bare, read_feedback, write_feedback, Feedback, Accessed, AccessAt, at_entry,
  after_walk, translated, read_at, write_at, check_read, check_write, check_fetch, fetch_part,
  second_part, vaddr_read_buffer, vaddr_write_buffer, vaddr_inst_fetch,
}
use m_emu.Mmu.Amo.{
  AmoFunct, executed, pa_amo_op, vaddr_atomic_mem_operation, reserved_read, vaddr_load_reserved,
  conditional_write, vaddr_store_conditional, amo_value, amo_loaded, reserve, is_reserved,
}

abbrev pub with_mmu : Sv39Mmu → Rv64Core → Rv64Core
with_mmu m s = record s { sv39_mmu = m }

-- A property of harts that the state of the MMU does not enter.
pub record IgnoresMmu (P : Rv64Core → Type 0) : Type 0 where
  pub at : (s : Rv64Core) (m : Sv39Mmu) → P s → P (with_mmu m s)

-- The property of the hart that a call leaves, if it leaves one.
abbrev pub Leaves : {S F A : Type 0} → (Rv64Core → Type 0) → Option (Rv64Core × S × F × A) → Type 0
Leaves P none = Unit {0}
Leaves P (some (s, mem, f, a)) = P s

module _ {S : Type 0} (bus : SysBus S) {P : Rv64Core → Type 0} (ignores : IgnoresMmu P) where
  -- An access at a physical address that keeps the property.
  abbrev KeepsAt : {A : Type 0} → AccessAt S A → Type 0
  KeepsAt access = (paddr : ℕ) (s : Rv64Core) (mem : S) → P s → Leaves P (access paddr s mem)

  if-Leaves :
      {F A : Type 0} (b : Bool) (x y : Option (Rv64Core × S × F × A))
      → Leaves P x
      → Leaves P y
      → Leaves P (if b then x else y)
  if-Leaves true x y hx hy = hx
  if-Leaves false x y hx hy = hy

  feedback-Leaves :
      {A : Type 0} (f : Feedback) (x y z w : Option (Accessed S A))
      → Leaves P x
      → Leaves P y
      → Leaves P z
      → Leaves P w
      → Leaves P (elim f [
        | Feedback.access_ok ↦ x
        | Feedback.access_fault ↦ y
        | Feedback.page_fault ↦ z
        | Feedback.mis_align ↦ w
      ])
  feedback-Leaves Feedback.access_ok x y z w a b c d = a
  feedback-Leaves Feedback.access_fault x y z w a b c d = b
  feedback-Leaves Feedback.page_fault x y z w a b c d = c
  feedback-Leaves Feedback.mis_align x y z w a b c d = d

  module _ {A : Type 0} (nothing : A) (check : TlbEntry → Rv64Core → Feedback)
      (access : AccessAt S A) (keeps : KeepsAt access) (begin_addr : ℕ) where
    at_entry-Leaves :
        (e : TlbEntry) (s : Rv64Core) (mem : S)
        → P s
        → Leaves P (at_entry bus nothing check access begin_addr e s mem)
    at_entry-Leaves e s mem h =
        feedback-Leaves (check e s) _ _ _ _
          (if-Leaves (page_bits e.pagesize == 0) _ _ tt (keeps _ s mem h)) h h h

    after_walk-Leaves :
        (s : Rv64Core) (w : Option (Walked S))
        → P s
        → Leaves P (after_walk bus nothing check access begin_addr s w)
    after_walk-Leaves s none h = tt
    after_walk-Leaves s (some (m, mem, none)) h = ignores.at s m h
    after_walk-Leaves s (some (m, mem, some i)) h =
        at_entry-Leaves (entry_at m.tlb i) (with_mmu m s) mem (ignores.at s m h)

    translated-Leaves :
        (size : ℕ) (s : Rv64Core) (mem : S)
        → P s
        → Leaves P (translated bus nothing check access begin_addr size s mem)
    unfolding translated
    translated-Leaves size s mem h =
        if-Leaves (crosses_page begin_addr size) _ _ h (after_walk-Leaves s _ h)

  read_at-KeepsAt : (size : ℕ) → KeepsAt (read_at bus size)
  read_at-KeepsAt size paddr s mem h = go (bus.read paddr size mem)
    where
      go : (r : S × Option (List ℕ)) → Leaves P (some (read_feedback bus s r))
      go (t, none) = h
      go (t, some bytes) = h

  pub vaddr_read_buffer-Leaves :
      (begin_addr size : ℕ) (s : Rv64Core) (mem : S)
      → P s
      → Leaves P (vaddr_read_buffer bus begin_addr size s mem)
  unfolding vaddr_read_buffer
  vaddr_read_buffer-Leaves begin_addr size s mem h =
      if-Leaves (is_bare s) _ _ (read_at-KeepsAt size begin_addr s mem h) (
        translated-Leaves [] check_read (read_at bus size) (read_at-KeepsAt size) begin_addr size s
          mem h)

  pub vaddr_write_buffer-Leaves :
      (begin_addr size : ℕ) (buffer : List ℕ) (s : Rv64Core) (mem : S)
      → P s
      → Leaves P (vaddr_write_buffer bus begin_addr size buffer s mem)
  unfolding vaddr_write_buffer
  vaddr_write_buffer-Leaves begin_addr size buffer s mem h = if-Leaves (is_bare s) _ _ h (
      translated-Leaves [] check_write (write_at bus Feedback.page_fault [] buffer)
        (λ paddr t m k. k) begin_addr size s mem h)

  fetch_part-Leaves :
      (begin_addr size : ℕ) (s : Rv64Core) (mem : S)
      → P s
      → Leaves P (fetch_part bus begin_addr size s mem)
  unfolding fetch_part
  fetch_part-Leaves begin_addr size s mem h = if-Leaves (not (begin_addr % 2 == 0)) _ _ tt (
      if-Leaves (priv_num s.current_priv_mode == 3 || get_field Satp.mode s.satp == 0) _ _
        (read_at-KeepsAt size begin_addr s mem h)
        (translated-Leaves [] check_fetch (read_at bus size) (read_at-KeepsAt size) begin_addr size
          s mem h))

  second_part-Leaves :
      (begin_addr : ℕ) (o : Option (Accessed S (List ℕ)))
      → Leaves P o
      → Leaves P (second_part bus begin_addr o)
  second_part-Leaves begin_addr none h = tt
  second_part-Leaves begin_addr (some (s, mem, Feedback.access_ok, low)) h =
      go (fetch_part bus ((begin_addr + 2) % 2 ^ 64) 2 s mem) (fetch_part-Leaves _ 2 s mem h)
    where
      go :
          (o : Option (Accessed S (List ℕ)))
          → Leaves P o
          → Leaves P
              (elim o [ none ↦ none | some (s2, mem2, f, high) ↦ some (s2, mem2, f, low ++ high) ])
      go none k = tt
      go (some (s2, mem2, f, high)) k = k
  second_part-Leaves begin_addr (some (s, mem, Feedback.access_fault, low)) h = h
  second_part-Leaves begin_addr (some (s, mem, Feedback.page_fault, low)) h = h
  second_part-Leaves begin_addr (some (s, mem, Feedback.mis_align, low)) h = h

  pub vaddr_inst_fetch-Leaves :
      (begin_addr size : ℕ) (s : Rv64Core) (mem : S)
      → P s
      → Leaves P (vaddr_inst_fetch bus begin_addr size s mem)
  unfolding vaddr_inst_fetch
  vaddr_inst_fetch-Leaves begin_addr size s mem h =
      if-Leaves (size == 4 && begin_addr % 4 == 2) _ _
        (second_part-Leaves begin_addr _ (fetch_part-Leaves begin_addr 2 s mem h))
        (fetch_part-Leaves begin_addr size s mem h)

  executed-Leaves : {A : Type 0} (o : Option (Accessed S A)) → Leaves P o → Leaves P (executed o)
  executed-Leaves none h = tt
  executed-Leaves (some (s, mem, f, a)) h = h

  pa_amo_op-KeepsAt : (size : ℕ) (op : AmoFunct) (src : ℕ) → KeepsAt (pa_amo_op bus size op src)
  unfolding pa_amo_op
  pa_amo_op-KeepsAt size op src pa s mem h = go (bus.read pa size mem)
    where
      write :
          (res : ℕ) (t : S) (o : Option ℕ)
          → Leaves P (elim o [
            | none ↦ none
            | some to_write ↦ some (
                write_feedback bus Feedback.access_fault
                  (some res)
                  s
                  (bus.write pa (le_bytes size to_write) t))
          ])
      write res t none = tt
      write res t (some v) = h

      go : (r : S × Option (List ℕ)) → Leaves P (amo_loaded bus op src pa size s r)
      go (t, none) = h
      go (t, some bytes) = write _ t (amo_value op src _)

  pub vaddr_atomic_mem_operation-Leaves :
      (start_addr size : ℕ) (op : AmoFunct) (src : ℕ) (s : Rv64Core) (mem : S)
      → P s
      → Leaves P (vaddr_atomic_mem_operation bus start_addr size op src s mem)
  unfolding vaddr_atomic_mem_operation
  vaddr_atomic_mem_operation-Leaves start_addr size op src s mem h =
      if-Leaves (not (size == 4 || size == 8)) _ _ tt (
        executed-Leaves _ (
          if-Leaves (is_bare s) _ _ (pa_amo_op-KeepsAt size op src start_addr s mem h) (
            translated-Leaves none check_write (pa_amo_op bus size op src)
              (pa_amo_op-KeepsAt size op src) start_addr size s mem h)))

  reserved_read-KeepsAt : (begin_addr size : ℕ) → KeepsAt (reserved_read bus begin_addr size)
  reserved_read-KeepsAt begin_addr size paddr s mem h = go (bus.read paddr size mem)
    where
      go :
          (r : S × Option (List ℕ))
          → Leaves P (some (read_feedback bus (reserve bus begin_addr size s) r))
      go (t, none) = ignores.at s _ h
      go (t, some bytes) = ignores.at s _ h

  pub vaddr_load_reserved-Leaves :
      (begin_addr size : ℕ) (s : Rv64Core) (mem : S)
      → P s
      → Leaves P (vaddr_load_reserved bus begin_addr size s mem)
  unfolding vaddr_load_reserved
  vaddr_load_reserved-Leaves begin_addr size s mem h = executed-Leaves _ (
      if-Leaves (is_bare s) _ _ (reserved_read-KeepsAt begin_addr size begin_addr s mem h) (
        translated-Leaves [] check_read (reserved_read bus begin_addr size)
          (reserved_read-KeepsAt begin_addr size) begin_addr size s mem h))

  conditional_write-KeepsAt :
      (failure : Feedback) (begin_addr size : ℕ) (buffer : List ℕ)
      → KeepsAt (conditional_write bus failure begin_addr size buffer)
  conditional_write-KeepsAt failure begin_addr size buffer paddr s mem h =
      if-Leaves (not (is_reserved bus begin_addr size s)) _ _ (ignores.at s _ h) (ignores.at s _ h)

  pub vaddr_store_conditional-Leaves :
      (begin_addr size : ℕ) (buffer : List ℕ) (s : Rv64Core) (mem : S)
      → P s
      → Leaves P (vaddr_store_conditional bus begin_addr size buffer s mem)
  unfolding vaddr_store_conditional
  vaddr_store_conditional-Leaves begin_addr size buffer s mem h = executed-Leaves _ (
      if-Leaves (is_bare s) _ _
        (conditional_write-KeepsAt Feedback.access_fault begin_addr size buffer begin_addr s mem h)
        (translated-Leaves none check_write
          (conditional_write bus Feedback.page_fault begin_addr size buffer)
          (conditional_write-KeepsAt Feedback.page_fault begin_addr size buffer) begin_addr size s
          mem h))
