-- ===== src/Gdb/Link.antt =====
-- Receiving and sending packets (M-EMU/src/gdb_stub/GDBStub_utils.cpp). The socket is what the
-- debugger sends and what was written to it. The stream of recvAndCheck, which is opened anew on
-- the socket for each packet, holds no character back: the debugger sends nothing between a packet
-- and the answer to it. What sscanf leaves in chk_sum_recv is a parameter, a function of the two
-- characters; CONFIG_DEBUG_ENABLE (M-EMU/include/sdk/sdkconfig.h) is another.
use m_emu.Base.{
  ℕ, zero, suc, Bool, not, ◌&&◌, Option, none, some, List, [], ◌∷◌, ◌++◌, ◌==◌, if◌then◌else◌,
}
use m_emu.Device.{ReturnFeedback}
use m_emu.Gdb.Text.{hex_byte}
use m_emu.Gdb.Rsp.{cal_check_sum}

pub record Link : Type 0 where
  pub incoming : List ℕ
  pub sent : List (List ℕ)

-- BUFFER_SIZE
abbrev pub buffer_size : ℕ
buffer_size = 1024

unfoldable pub write : List ℕ → Link → Link
write text link = record link { sent = link.sent ++ text ∷ [] }

-- "+" and "-"
unfoldable pub send_ack : Link → Link
send_ack link = write (b'+' ∷ []) link

unfoldable pub send_nak : Link → Link
send_nak link = write (b'-' ∷ []) link

-- getc: at the end of the stream EOF, which is 255 as a character.
unfoldable pub getc : List ℕ → ℕ × List ℕ
getc [] = (255, [])
getc (c ∷ cs) = (c, cs)

-- `read` of one character, which is as it was at the end of the stream.
unfoldable pub read_char : ℕ → Link → ℕ × Link
read_char before link = elim link.incoming as (λ incoming. ℕ × Link) [
  | [] ↦ (before, link)
  | c ∷ cs ↦ (c, record link { incoming = cs })
]

-- The characters since the last `$`, if there was one, for packetBeginIndex and packetSize.
abbrev pub Begun : Type 0
Begun = Option (List ℕ)

abbrev pub keep : ℕ → Begun → Begun
keep c none = none
keep c (some payload) = some (payload ++ c ∷ [])

-- The loop that fills the buffer, with `n` places left: up to `#`. `none` is a packet too long.
unfoldable pub read_packet : ℕ → Begun → List ℕ → Option (Begun × List ℕ)
read_packet zero begun incoming = none
read_packet (suc n) begun incoming =
    let (c, rest) = getc incoming in
    let later = read_packet n (if c == b'$' then some [] else keep c begun) rest in
    if c == b'#' then some (begun, rest) else later

-- A feedback, and the payload where it is MEMU_OK.
abbrev pub Received : Type 0
Received = Link × ReturnFeedback × List ℕ

module _ (scan_check_sum : ℕ → ℕ → ℕ) (config_debug_enable : Bool) where
  unfoldable pub checked_packet : Begun → ℕ → ℕ → Link → Received
  checked_packet none c0 c1 link = (link, ReturnFeedback.protocol_err, [])
  checked_packet (some payload) c0 c1 link =
      if not config_debug_enable && not (scan_check_sum c0 c1 == cal_check_sum payload)
      then (link, ReturnFeedback.chksum_err, [])
      else (link, ReturnFeedback.ok, payload)

  -- `none` is an exit of the program.
  unfoldable pub recv_and_check : Link → Option Received
  recv_and_check link = elim (read_packet buffer_size none link.incoming) [
    | none ↦ none
    | some (begun, rest) ↦
        let (c0, rest0) = getc rest in
        let (c1, rest1) = getc rest0 in
        some (checked_packet begun c0 c1 (record link { incoming = rest1 }))
  ]

  -- The two loops of recvPacket ask again at most ten times in all; `n` is what is left of them.
  unfoldable pub retry_protocol : ℕ → Received → Option Received
  retry_protocol zero (link, ReturnFeedback.protocol_err, payload) = none
  retry_protocol (suc n) (link, ReturnFeedback.protocol_err, payload) =
      elim (recv_and_check (send_nak link)) [
        | none ↦ none
        | some received ↦ retry_protocol n received
      ]
  retry_protocol n received = some received

  unfoldable pub retry_check_sum : ℕ → Received → Option Received
  retry_check_sum zero (link, ReturnFeedback.chksum_err, payload) = none
  retry_check_sum (suc n) (link, ReturnFeedback.chksum_err, payload) =
      elim (recv_and_check (send_nak link)) [
        | none ↦ none
        | some received ↦ retry_check_sum n received
      ]
  retry_check_sum n received = retry_protocol n received

  abbrev pub acknowledge : Option Received → Option Received
  acknowledge none = none
  acknowledge (some (link, feedback, payload)) = some (send_ack link, feedback, payload)

  abbrev pub retried : Option Received → Option Received
  retried none = none
  retried (some received) = retry_check_sum 10 received

  unfoldable pub recv_packet : Link → Option Received
  recv_packet link = acknowledge (retried (recv_and_check link))

-- The packet between `$` and `#`, with its checksum.
unfoldable pub frame : List ℕ → List ℕ
frame text = b'$' ∷ (text ++ (b'#' ∷ hex_byte (cal_check_sum text)))

-- The loop that sends again, at most `n` times.
unfoldable pub resend : ℕ → List ℕ → ℕ × Link → Link
resend zero packet (ack, link) = link
resend (suc n) packet (ack, link) =
    let again = resend n packet (read_char ack (write packet link)) in
    if ack == b'+' then link else again

unfoldable pub packing_and_send : List ℕ → Link → Link
packing_and_send text link = resend 10 (frame text) (read_char b'-' (write (frame text) link))
