-- ===== src/Uart/Queues.antt =====
-- The console as two queues of bytes.
use m_emu.Base.{
  ℕ, zero, suc, ◌*◌, ◌%◌, ◌^◌, ◌<◌, ◌≡◌, refl, ap, sym, ◌∙◌, false, Option, none, some, List, [],
  ◌∷◌, ◌++◌, map, length, set, arith,
}
use m_emu.Words.{
  le_bytes, slice, splice, pack, unpack, take_word, splice-pack, unpack-pack, AllBelow,
  length-le_bytes, le_bytes-IsBytes, from_le-le_bytes,
}
use m_emu.Device.{Access, done, failed, fault}
use m_emu.Uart.Defs.{
  Uartlite, UartliteRegs, regs_bytes, regs_of, regs_of_words, take_tx, refresh, do_read, do_write,
  putc, getc, sign_extended, pop,
}
use mathlib.Core.List.{append_assoc, append-nil}

-- The host types the bytes `cs`.
abbrev pub put_all : List ℕ → Uartlite → Uartlite
put_all [] u = u
put_all (c ∷ cs) u = put_all cs (putc c u)

-- A read of the receive register by the guest, with the bytes that it sees.
abbrev pub received : Access (Uartlite × List ℕ) → (Uartlite → List (List ℕ)) → List (List ℕ)
received (done (u, bs)) rest = bs ∷ rest u
received failed rest = []
received fault rest = []

-- The guest reads the receive register `n` times.
pub read_all : ℕ → Uartlite → List (List ℕ)
read_all zero u = []
read_all (suc n) u = let next = λ (v : Uartlite). read_all n v in received (do_read 0 4 u) next

put_all-rx : (cs : List ℕ) (u : Uartlite) → (put_all cs u).rx ≡ u.rx ++ cs
unfolding putc
put_all-rx [] u = sym (append-nil u.rx)
put_all-rx (c ∷ cs) u = put_all-rx cs (putc c u) ∙ append_assoc u.rx (c ∷ []) cs

front_bytes : (r : UartliteRegs) → slice 0 4 (regs_bytes r) ≡ le_bytes 4 r.rx_fifo
unfolding slice regs_bytes pack
front_bytes r = take_word 4 r.rx_fifo (pack 4 (r.tx_fifo ∷ r.status ∷ r.control ∷ []))

-- The state after the guest has read the byte `c` with `cs` behind it.
abbrev after_read : ℕ → List ℕ → Uartlite → Uartlite
after_read c cs u = record u { regs = refresh (c ∷ cs) u.regs; wait_ack = false; rx = cs }

read_front :
    (c : ℕ) (cs : List ℕ) (u : Uartlite)
    → u.rx ≡ c ∷ cs
    → do_read 0 4 u ≡ done (after_read c cs u, le_bytes 4 (sign_extended c))
unfolding do_read
read_front c cs u e =
    ap
      (λ q. done (
        record u { regs = refresh q u.regs; wait_ack = false; rx = pop q },
        slice 0 4 (regs_bytes (refresh q u.regs)),
      ))
      e
    ∙ ap (λ bs. done (after_read c cs u, bs)) (front_bytes (refresh (c ∷ cs) u.regs))

read_all-queue :
    (cs : List ℕ) (u : Uartlite)
    → u.rx ≡ cs
    → read_all (length cs) u ≡ map (λ c. le_bytes 4 (sign_extended c)) cs
unfolding read_all
read_all-queue [] u e = refl
read_all-queue (c ∷ cs) u e =
    ap (λ r. received r (λ v. read_all (length cs) v)) (read_front c cs u e)
    ∙ ap (λ bs. le_bytes 4 (sign_extended c) ∷ bs) (read_all-queue cs (after_read c cs u) refl)

-- When the receive queue is empty, the bytes that the host types come to the guest, one per read
-- of the receive register, each once and in the order typed, as words extended with the sign.
pub read_all-put_all :
    (cs : List ℕ) (u : Uartlite)
    → u.rx ≡ []
    → read_all (length cs) (put_all cs u) ≡ map (λ c. le_bytes 4 (sign_extended c)) cs
read_all-put_all cs u e = read_all-queue cs (put_all cs u) (put_all-rx cs u ∙ ap (λ q. q ++ cs) e)

-- The guest stores the words `cs` in the transmit register.
abbrev sent : Access Uartlite → (Uartlite → Option Uartlite) → Option Uartlite
sent (done u) rest = rest u
sent failed rest = none
sent fault rest = none

pub send_all : List ℕ → Uartlite → Option Uartlite
send_all [] u = some u
send_all (c ∷ cs) u = sent (do_write 4 (le_bytes 4 c) u) (λ v. send_all cs v)

-- The host takes `n` characters.
pub get_all : ℕ → Uartlite → List (Option ℕ)
get_all zero u = []
get_all (suc n) u = let (v, c) = getc u in c ∷ get_all n v

unfoldable pub RegsFit : UartliteRegs → Type 0
RegsFit r = AllBelow (256 ^ 4) (r.rx_fifo ∷ r.tx_fifo ∷ r.status ∷ r.control ∷ [])

abbrev words : UartliteRegs → List ℕ
words r = r.rx_fifo ∷ r.tx_fifo ∷ r.status ∷ r.control ∷ []

-- A whole word stored at the register `h`.
stored :
    (h c : ℕ) (r : UartliteRegs)
    → h < 4
    → c < 2 ^ 32
    → AllBelow (256 ^ 4) (set (words r) h c)
    → length (set (words r) h c) ≡ 4
    → regs_of (splice (4 * h) (le_bytes 4 c) (regs_bytes r)) ≡ regs_of_words (set (words r) h c)
unfolding regs_of regs_bytes
stored h c r lt b v len =
    ap (λ bs. regs_of_words (unpack 4 4 bs))
      (splice-pack 4 h (le_bytes 4 c) (words r) (length-le_bytes 4 c) (le_bytes-IsBytes 4 c) lt)
    ∙ ap (λ x. regs_of_words (unpack 4 4 (pack 4 (set (words r) h x)))) (from_le-le_bytes 4 c b)
    ∙ ap (λ n. regs_of_words (unpack 4 n (pack 4 (set (words r) h c)))) (sym len)
    ∙ ap regs_of_words (unpack-pack 4 (set (words r) h c) v)

stored_rx :
    (c : ℕ) (r : UartliteRegs)
    → c < 2 ^ 32
    → RegsFit r
    → regs_of (splice 0 (le_bytes 4 c) (regs_bytes r)) ≡ record r { rx_fifo = c }
unfolding RegsFit
stored_rx c r b v = stored 0 c r (omega arith) b (b, v.1) refl

stored_tx :
    (c : ℕ) (r : UartliteRegs)
    → c < 2 ^ 32
    → RegsFit r
    → regs_of (splice 4 (le_bytes 4 c) (regs_bytes r)) ≡ record r { tx_fifo = c }
unfolding RegsFit
stored_tx c r b v = stored 1 c r (omega arith) b (v.0, (b, v.1.1)) refl

write_tx :
    (c : ℕ) (u : Uartlite)
    → c < 2 ^ 32
    → RegsFit u.regs
    → do_write 4 (le_bytes 4 c) u
      ≡ done (record u { regs = record u.regs { tx_fifo = c }; tx = u.tx ++ (c % 256) ∷ [] })
unfolding do_write
write_tx c u b v = rw (length-le_bytes 4 c, stored_tx c u.regs b v)

RegsFit-tx :
    (c : ℕ) (r : UartliteRegs) → c < 2 ^ 32 → RegsFit r → RegsFit (record r { tx_fifo = c })
unfolding RegsFit
RegsFit-tx c r b v = (v.0, (b, v.1.1))

-- The state after the guest has stored the word `c` in the transmit register.
abbrev after_write : ℕ → Uartlite → Uartlite
after_write c u = record u { regs = record u.regs { tx_fifo = c }; tx = u.tx ++ (c % 256) ∷ [] }

send_all-tx :
    (cs : List ℕ) (u : Uartlite)
    → AllBelow (2 ^ 32) cs
    → RegsFit u.regs
    → (v : Uartlite) × (send_all cs u ≡ some v)
      × (v.rx ≡ u.rx)
      × (v.tx ≡ u.tx ++ map (λ c. c % 256) cs)
unfolding send_all
send_all-tx [] u b f = (u, refl, refl, sym (append-nil u.tx))
send_all-tx (c ∷ cs) u b f =
    let (v, e, r, t) = send_all-tx cs (after_write c u) b.1 (RegsFit-tx c u.regs b.0 f) in
    (
      v,
      ap (λ a. sent a (λ w. send_all cs w)) (write_tx c u b.0 f) ∙ e,
      r,
      t ∙ append_assoc u.tx ((c % 256) ∷ []) (map (λ x. x % 256) cs),
    )

take_front : (c : ℕ) (cs : List ℕ) (u : Uartlite) → u.tx ≡ c ∷ cs → getc u ≡ take_tx u (c ∷ cs)
unfolding getc
take_front c cs u e = ap (take_tx u) e

length-map : (cs : List ℕ) → length (map (λ c. c % 256) cs) ≡ length cs
length-map [] = refl
length-map (c ∷ cs) = ap suc (length-map cs)

get_all-queue : (cs : List ℕ) (u : Uartlite) → u.tx ≡ cs → get_all (length cs) u ≡ map some cs
unfolding get_all
get_all-queue [] u e = refl
get_all-queue (c ∷ cs) u e =
    rw (take_front c cs u e) (ap (λ t. some c ∷ t) (get_all-queue cs (take_tx u (c ∷ cs)).0 refl))

-- The words that the guest stores in the transmit register, in registers that fit their 32 bits,
-- leave the receive queue alone, and the host takes them from a transmit queue that was empty as
-- characters (the low byte of each), each once and in the order stored.
pub get_all-send_all :
    (cs : List ℕ) (u : Uartlite)
    → AllBelow (2 ^ 32) cs
    → RegsFit u.regs
    → u.tx ≡ []
    → (v : Uartlite) × (send_all cs u ≡ some v)
      × (v.rx ≡ u.rx)
      × (get_all (length cs) v ≡ map some (map (λ c. c % 256) cs))
get_all-send_all cs u b f e =
    let (v, s, r, t) = send_all-tx cs u b f in
    let q : v.tx ≡ map (λ c. c % 256) cs = t ∙ ap (λ x. x ++ map (λ c. c % 256) cs) e in
    let n : length cs ≡ length (map (λ c. c % 256) cs) = sym (length-map cs) in
    (v, s, r, rw n (get_all-queue (map (λ c. c % 256) cs) v q))

-- A store of a word in the receive register, in registers that fit their 32 bits, puts the word
-- there and queues a character all the same: the low byte of what the transmit register held.
pub store_rx-tx :
    (c : ℕ) (u : Uartlite)
    → c < 2 ^ 32
    → RegsFit u.regs
    → do_write 0 (le_bytes 4 c) u
      ≡ done (record u {
        regs = record u.regs { rx_fifo = c };
        tx = u.tx ++ (u.regs.tx_fifo % 256) ∷ [];
      })
unfolding do_write
store_rx-tx c u b f = rw (length-le_bytes 4 c, stored_rx c u.regs b f)
