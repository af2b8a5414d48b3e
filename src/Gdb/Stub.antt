-- ===== src/Gdb/Stub.antt =====
-- The session with the debugger (M-EMU/src/gdb_stub/GDBStub_common.cpp).
use m_emu.Base.{ℕ, zero, suc, Bool, Option, none, some, List}
use m_emu.Device.{ReturnFeedback}
use m_emu.Mmu.{SysBus}
use m_emu.Gdb.Rsp.{PacketType, Packet, parse_packet}
use m_emu.Gdb.Link.{Received, send_ack, recv_packet}
use m_emu.Gdb.Commands.{
  Session, Run, done, aborted, running, cmd_get_halt_reason, cmd_read_all_register,
  cmd_write_all_register, cmd_q_supported, cmd_mem_read, cmd_mem_write, cmd_insert_breakpoint,
  cmd_remove_breakpoint, cmd_continue, cmd_unknown,
}

module _ {S : Type 0} (bus : SysBus S) (fuel stack_size : ℕ) where
  -- The call of a case of the switch; `none` is the default case.
  unfoldable pub perform : PacketType → List (List ℕ) → Session S → Run (Session S)
  perform PacketType.query_halt_reason params s = cmd_get_halt_reason s
  perform PacketType.reg_read_all params s = cmd_read_all_register s
  perform PacketType.reg_write_all params s = cmd_write_all_register params s
  perform PacketType.q_supported params s = cmd_q_supported params s
  perform PacketType.mem_read params s = cmd_mem_read bus stack_size params s
  perform PacketType.mem_write params s = cmd_mem_write bus params s
  perform PacketType.insert_breakpoint params s = cmd_insert_breakpoint params s
  perform PacketType.remove_breakpoint params s = cmd_remove_breakpoint params s
  perform PacketType.continue params s = cmd_continue bus fuel params s
  perform PacketType.empty_packet params s = done s
  perform PacketType.unknown params s = cmd_unknown s
  perform _ params s = aborted

  -- Each case acknowledges the packet once more.
  unfoldable pub act : Packet → Session S → Run (Session S)
  act packet s = perform packet.packet_type packet.param_list (record s { link = send_ack s.link })

  abbrev pub act_on : Session S → Option Received → Run (Session S)
  act_on s none = aborted
  act_on s (some (link, ReturnFeedback.ok, payload)) =
      act (parse_packet payload) (record s { link = link })
  act_on s (some (link, feedback, payload)) = aborted

  module _ (scan_check_sum : ℕ → ℕ → ℕ) (config_debug_enable : Bool) where
    -- One round of the loop of Debug_GDBStub.
    unfoldable pub serve : Session S → Run (Session S)
    serve s = act_on s (recv_packet scan_check_sum config_debug_enable s.link)

    -- `n` rounds.
    unfoldable pub debug_gdb_stub : ℕ → Session S → Run (Session S)
    debug_gdb_stub zero s = done s
    debug_gdb_stub (suc n) s = elim (serve s) [
      | done t ↦ debug_gdb_stub n t
      | aborted ↦ aborted
      | running ↦ running
    ]
