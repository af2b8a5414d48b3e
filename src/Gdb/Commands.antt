-- ===== src/Gdb/Commands.antt =====
-- The commands of the debugger (M-EMU/src/gdb_stub/GDBStub_cmds.cpp) on a hart and its watch points.
-- The loop of cmd_Continue takes fuel: `running` is a hart that is still in it, `aborted` a failed
-- assertion, an exit or a stack that overflows. `stack_size` is how many bytes of the stack the
-- buffers of cmd_MemRead may take, whose sizes the debugger chooses; the buffers of the other
-- commands are no larger than a packet and its answer. GetISABitLen is 64.
use m_emu.Base.{
  ℕ, zero, suc, ltb, leb, ◌+◌, ◌*◌, ◌/◌, ◌%◌, ◌^◌, Bool, true, false, not, ◌&&◌, ◌||◌, Option, none,
  some, List, [], ◌∷◌, ◌++◌, ◌==◌, if◌then◌else◌, length,
}
use m_emu.Words.{le_bytes, unpack}
use m_emu.Device.{ReturnFeedback}
use m_emu.Mmu.{SysBus}
use m_emu.Core.{
  Hart, RegisterItem, dump_register, write_all_register, insert_watch_point, remove_watch_point,
  is_current_pc_at_watch_point, debug_mem_read, debug_mem_write, step,
}
use m_emu.Gdb.Text.{hex_dump, strtoll}
use m_emu.Gdb.Rsp.{parse_byte_stream}
use m_emu.Gdb.Link.{Link, packing_and_send}

pub record Session (S : Type 0) : Type 0 where
  pub link : Link
  pub hart : Hart S
  pub watch_points : List ℕ

pub data Run (A : Type 0) : Type 0 where
  done : A → Run A
  aborted running : Run A

-- "E01", "S05" and "OK"
abbrev pub error_reply : List ℕ
error_reply = b'E' ∷ b'0' ∷ b'1' ∷ []

abbrev pub halt_reply : List ℕ
halt_reply = b'S' ∷ b'0' ∷ b'5' ∷ []

abbrev pub ok_reply : List ℕ
ok_reply = b'O' ∷ b'K' ∷ []

-- hwbreak
abbrev pub hwbreak : List ℕ
hwbreak = b'h' ∷ b'w' ∷ b'b' ∷ b'r' ∷ b'e' ∷ b'a' ∷ b'k' ∷ []

-- strcmp(left, right) == 0
unfoldable pub same_text : List ℕ → List ℕ → Bool
same_text [] [] = true
same_text [] (d ∷ ds) = false
same_text (c ∷ cs) [] = false
same_text (c ∷ cs) (d ∷ ds) = c == d && same_text cs ds

-- The bytes of the registers, each in little-endian order.
unfoldable pub register_bytes : List RegisterItem → List ℕ
register_bytes [] = []
register_bytes (reg ∷ regs) = le_bytes reg.size reg.val ++ register_bytes regs

-- The items of the values, from number `i` on.
unfoldable pub register_items : ℕ → List ℕ → List RegisterItem
register_items i [] = []
register_items i (v ∷ vs) =
    record { reg_id = i % 2 ^ 16; size = 8; val = v } ∷ register_items (suc i) vs

-- The answer of cmd_QSupported.
unfoldable pub supported_features : List (List ℕ) → List ℕ
supported_features [] = []
supported_features (name ∷ names) =
    let later = supported_features names in
    if same_text name hwbreak then hwbreak ++ (b'+' ∷ later) else later

-- strtol gives a `long`, of which an `int` keeps the low bits.
abbrev pub is_watch_point_type : List ℕ → Bool
is_watch_point_type text = strtoll text % 2 ^ 32 == 0 || strtoll text % 2 ^ 32 == 1

-- The bytes and their text, with two copies of it as a packet in packingAndSend, do not fit the
-- stack, or the `int` that counts the bytes overflows.
abbrev pub is_answer_too_long : ℕ → ℕ → Bool
is_answer_too_long stack_size len =
    ltb stack_size (len + (2 * len + 1) + 2 * (2 * len + 5)) || leb (2 ^ 31) len

module _ {S : Type 0} where
  unfoldable pub reply : List ℕ → Session S → Session S
  reply text s = record s { link = packing_and_send text s.link }

  unfoldable pub cmd_read_all_register : Session S → Run (Session S)
  cmd_read_all_register s =
      done (reply (hex_dump (register_bytes (dump_register s.hart.core []))) s)

  abbrev pub registers_written : Session S → ReturnFeedback → Session S
  registers_written s ReturnFeedback.ok = s
  registers_written s feedback = reply error_reply s

  -- The registers of the parsed bytes, `count` of them.
  abbrev pub write_parsed : Session S → ℕ → Option (List ℕ) → Run (Session S)
  write_parsed s count none = aborted
  write_parsed s count (some bytes) =
      let (core, feedback) =
        write_all_register (register_items 0 (unpack 8 count bytes)) s.hart.core in
      done (registers_written (record s { hart = record s.hart { core = core } }) feedback)

  unfoldable pub cmd_write_all_register : List (List ℕ) → Session S → Run (Session S)
  cmd_write_all_register (text ∷ []) s =
      if not (length text % 16 == 0)
      then done (reply [] s)
      else write_parsed s (length text / 16) (parse_byte_stream text)
  cmd_write_all_register params s = done (reply [] s)

  unfoldable pub cmd_get_halt_reason : Session S → Run (Session S)
  cmd_get_halt_reason s = done (reply halt_reply s)

  unfoldable pub cmd_q_supported : List (List ℕ) → Session S → Run (Session S)
  cmd_q_supported params s = done (reply (supported_features params) s)

  unfoldable pub cmd_unknown : Session S → Run (Session S)
  cmd_unknown s = done (reply [] s)

  unfoldable pub cmd_insert_breakpoint : List (List ℕ) → Session S → Run (Session S)
  cmd_insert_breakpoint (kind ∷ addr ∷ ignored ∷ []) s =
      if not (is_watch_point_type kind)
      then done (reply [] s)
      else done (
          reply ok_reply
            (record s { watch_points = insert_watch_point (strtoll addr) s.watch_points }))
  cmd_insert_breakpoint params s = done (reply [] s)

  unfoldable pub cmd_remove_breakpoint : List (List ℕ) → Session S → Run (Session S)
  cmd_remove_breakpoint (kind ∷ addr ∷ ignored ∷ []) s =
      if not (is_watch_point_type kind)
      then done (reply [] s)
      else done (
          reply ok_reply
            (record s { watch_points = remove_watch_point (strtoll addr) s.watch_points }))
  cmd_remove_breakpoint params s = done (reply [] s)

  -- What memory access leaves, and the answer, for a stack and a length.
  abbrev pub memory_read : ℕ → ℕ → Session S → Option (Hart S × Option (List ℕ)) → Run (Session S)
  memory_read stack_size len s none = aborted
  memory_read stack_size len s (some (hart, none)) =
      done (reply error_reply (record s { hart = hart }))
  memory_read stack_size len s (some (hart, some bytes)) =
      if is_answer_too_long stack_size len
      then aborted
      else done (reply (hex_dump bytes) (record s { hart = hart }))

  abbrev pub memory_written : Session S → Option (Hart S × Bool) → Run (Session S)
  memory_written s none = aborted
  memory_written s (some (hart, false)) = done (reply error_reply (record s { hart = hart }))
  memory_written s (some (hart, true)) = done (record s { hart = hart })

  abbrev pub after_step : (Hart S → Run (Hart S)) → Option (Hart S × Unit {0}) → Run (Hart S)
  after_step rest none = aborted
  after_step rest (some (middle, value)) = rest middle

module _ {S : Type 0} (bus : SysBus S) where
  unfoldable pub cmd_mem_read : ℕ → List (List ℕ) → Session S → Run (Session S)
  cmd_mem_read stack_size (addr ∷ len ∷ []) s =
      if ltb stack_size (strtoll len)
      then aborted
      else memory_read stack_size (strtoll len) s
          (debug_mem_read bus (strtoll addr) (strtoll len) s.hart)
  cmd_mem_read stack_size params s = done (reply [] s)

  abbrev pub write_bytes_parsed : Session S → ℕ → Option (List ℕ) → Run (Session S)
  write_bytes_parsed s addr none = aborted
  write_bytes_parsed s addr (some bytes) = memory_written s (debug_mem_write bus addr bytes s.hart)

  unfoldable pub cmd_mem_write : List (List ℕ) → Session S → Run (Session S)
  cmd_mem_write (addr ∷ len ∷ text ∷ []) s =
      if not (2 * strtoll len % 2 ^ 64 == length text)
      then done (reply [] s)
      else write_bytes_parsed s (strtoll addr) (parse_byte_stream text)
  cmd_mem_write params s = done (reply [] s)

  -- The loop of cmd_Continue.
  unfoldable pub run_to_watch_point : ℕ → List ℕ → Hart S → Run (Hart S)
  run_to_watch_point zero ws h = if is_current_pc_at_watch_point h.core ws then done h else running
  run_to_watch_point (suc fuel) ws h = elim (is_current_pc_at_watch_point h.core ws) [
    | true ↦ done h
    | false ↦ after_step (run_to_watch_point fuel ws) (step bus h)
  ]

  abbrev pub halted : Session S → Run (Hart S) → Run (Session S)
  halted s aborted = aborted
  halted s running = running
  halted s (done hart) = done (reply halt_reply (record s { hart = hart }))

  unfoldable pub cmd_continue : ℕ → List (List ℕ) → Session S → Run (Session S)
  cmd_continue fuel [] s = halted s (run_to_watch_point fuel s.watch_points s.hart)
  cmd_continue fuel (param ∷ params) s = done (reply [] s)
