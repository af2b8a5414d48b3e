-- ===== src/Uart/Defs.antt =====
-- class uartlite (modules/dev/uartlite/include/uartlite.hpp). The four registers are 16 bytes of
-- memory in the order rx_fifo, tx_fifo, status, control; the two queues hold bytes, oldest first.
-- An access whose end wraps around 2 ^ 64 copies outside the registers. The mutexes serialise the calls, so a call is one step.
use m_emu.Base.{
  ℕ, ◌+◌, ◌-◌, ◌%◌, ◌^◌, Bool, true, false, not, ◌&&◌, ◌||◌, Option, none, some, List, [], ◌∷◌,
  ◌++◌, bit_and, bit_or, length, get_or, ltb, leb, ◌==◌, if◌then◌else◌,
}
use m_emu.Words.{pack, unpack, slice, splice}
use m_emu.Device.{Access, done, failed, fault, end_addr}

pub record UartliteRegs : Type 0 where
  pub rx_fifo : ℕ
  pub tx_fifo : ℕ
  pub status : ℕ
  pub control : ℕ

pub record Uartlite : Type 0 where
  pub regs : UartliteRegs
  pub rx : List ℕ
  pub tx : List ℕ
  pub wait_ack : Bool

abbrev pub sr_rx_fifo_valid_data : ℕ
sr_rx_fifo_valid_data = 1

abbrev pub sr_tx_fifo_empty : ℕ
sr_tx_fifo_empty = 4

-- sizeof(regs)
abbrev pub sizeof_regs : ℕ
sizeof_regs = 16

-- The memory of `regs`, and the registers that bytes of it make.
unfoldable pub regs_bytes : UartliteRegs → List ℕ
regs_bytes r = pack 4 (r.rx_fifo ∷ r.tx_fifo ∷ r.status ∷ r.control ∷ [])

abbrev pub regs_of_words : List ℕ → UartliteRegs
regs_of_words ws = record {
  rx_fifo = get_or ws 0 0;
  tx_fifo = get_or ws 1 0;
  status = get_or ws 2 0;
  control = get_or ws 3 0;
}

unfoldable pub regs_of : List ℕ → UartliteRegs
regs_of bs = regs_of_words (unpack 4 4 bs)

unfoldable pub create : Uartlite
create = record {
  regs = record { rx_fifo = 0; tx_fifo = 0; status = sr_tx_fifo_empty; control = 0 };
  rx = [];
  tx = [];
  wait_ack = false;
}

abbrev pub is_empty : List ℕ → Bool
is_empty [] = true
is_empty (c ∷ cs) = false

abbrev pub pop : List ℕ → List ℕ
pop [] = []
pop (c ∷ cs) = cs

-- start_addr <= offset && offset <= start_addr + size
abbrev pub touches : ℕ → ℕ → ℕ → Bool
touches offset start_addr size = leb start_addr offset && leb offset (end_addr start_addr size)

-- regs.rx_fifo = rx.front(), a char that is extended with its sign
abbrev pub sign_extended : ℕ → ℕ
sign_extended c = if ltb c 128 then c else c + 2 ^ 32 - 256

-- The status bit and the received byte as do_read sets them.
abbrev pub refresh : List ℕ → UartliteRegs → UartliteRegs
refresh [] r = record r { status = bit_and r.status (2 ^ 32 - 1 - sr_rx_fifo_valid_data) }
refresh (c ∷ cs) r = record r {
  status = bit_or r.status sr_rx_fifo_valid_data;
  rx_fifo = sign_extended c;
}

unfoldable pub do_read : ℕ → ℕ → Uartlite → Access (Uartlite × List ℕ)
do_read start_addr size u =
    let regs = refresh u.rx u.regs in
    if ltb sizeof_regs (end_addr start_addr size)
    then failed
    else if ltb sizeof_regs (start_addr + size)
    then fault
    else done (
      record u {
        regs = regs;
        wait_ack = false;
        rx = if touches 0 start_addr size then pop u.rx else u.rx;
      },
      slice start_addr size (regs_bytes regs),
    )

-- The queues after a write has stored the registers.
abbrev pub push_tx : ℕ → ℕ → UartliteRegs → List ℕ → List ℕ
push_tx start_addr size regs tx =
    if touches 4 start_addr size then tx ++ (regs.tx_fifo % 256) ∷ [] else tx

abbrev pub cleared : ℕ → ℕ → ℕ → UartliteRegs → List ℕ → List ℕ
cleared mask start_addr size regs q =
    if touches 12 start_addr size && not (bit_and regs.control mask == 0) then [] else q

unfoldable pub do_write : ℕ → List ℕ → Uartlite → Access Uartlite
do_write start_addr buffer u =
    let size = length buffer in
    let regs = regs_of (splice start_addr buffer (regs_bytes u.regs)) in
    if ltb sizeof_regs (end_addr start_addr size)
    then failed
    else if ltb sizeof_regs (start_addr + size)
    then fault
    else done (record u {
      regs = regs;
      tx = cleared 1 start_addr size regs (push_tx start_addr size regs u.tx);
      rx = cleared 2 start_addr size regs u.rx;
    })

unfoldable pub putc : ℕ → Uartlite → Uartlite
putc c u = record u { rx = u.rx ++ c ∷ [] }

-- `none` is EOF.
abbrev pub take_tx : Uartlite → List ℕ → Uartlite × Option ℕ
take_tx u [] = (u, none)
take_tx u (c ∷ cs) =
    (record u { tx = cs; wait_ack = if is_empty cs then true else u.wait_ack }, some c)

unfoldable pub getc : Uartlite → Uartlite × Option ℕ
getc u = take_tx u u.tx

unfoldable pub exist_tx : Uartlite → Bool
exist_tx u = not (is_empty u.tx)

unfoldable pub irq : Uartlite → Bool
irq u = not (is_empty u.rx) || u.wait_ack
