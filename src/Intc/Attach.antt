-- ===== src/Intc/Attach.antt =====
-- AttachCoreIntStatus of M-EMU/include/interface/IntCtrl.h and of the two adapters, which are the
-- same text. A pointer to the lines of a hart is a number; `none` is a pointer to nothing.
use m_emu.Base.{ℕ, Option, none, some, List, length, get_or, set, replicate, ltb, if◌then◌else◌}

-- The vector of IntCtrl_I and the two pointers of an adapter.
pub record Attached : Type 0 where
  pub int_status : List (Option ℕ)
  pub core0_int_status : Option ℕ
  pub core1_int_status : Option ℕ

-- The vector has ten elements.
abbrev pub unattached : Attached
unattached = record {
  int_status = replicate 10 none;
  core0_int_status = none;
  core1_int_status = none;
}

-- The result is always MEMU_OK; `none` is an access outside the vector.
unfoldable pub attach_core_int_status : ℕ → ℕ → Attached → Option Attached
attach_core_int_status int_status hart_id a =
    let pointers = set a.int_status hart_id (some int_status) in
    if ltb hart_id (length a.int_status)
    then some (record {
      int_status = pointers;
      core0_int_status = get_or pointers 0 none;
      core1_int_status = get_or pointers 1 none;
    })
    else none
