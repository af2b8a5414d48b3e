-- ===== src/Uart/Terminal.antt =====
-- The console at its terminal.
use mathlib.Core.List.{append_assoc, append-nil}
use m_emu.Base.{
  ℕ, zero, suc, ◌≤◌, ◌≡◌, refl, ap, ◌∙◌, true, some, List, [], ◌∷◌, ◌++◌, length, take, drop, arith,
  if◌then◌else◌,
}
use m_emu.Uart.Defs.{Uartlite, putc, getc, exist_tx, is_empty}
use m_emu.Uart.Adapter.{CharDev, CemuUartAdapter, flush, put_bytes, polled, step_dev}

put_bytes_lem : (cs : List ℕ) (u : Uartlite) → put_bytes cs u ≡ record u { rx = u.rx ++ cs }
unfolding put_bytes putc
put_bytes_lem [] u = ap (λ q. record u { rx = q }) (rw append-nil refl)
put_bytes_lem (c ∷ cs) u =
    put_bytes_lem cs (putc c u) ∙ ap (λ q. record u { rx = q }) (append_assoc u.rx (c ∷ []) cs)

-- The console after its queue of `tx` was sent.
abbrev pub emptied : Uartlite → Uartlite
emptied u = record u { tx = []; wait_ack = if is_empty u.tx then u.wait_ack else true }

flush_lem :
    (fuel : ℕ) (tx : List ℕ) (u : Uartlite) (output : List ℕ)
    → length tx ≤ fuel
    → flush fuel (record u { tx = tx }) output ≡ some (emptied (record u { tx = tx }), output ++ tx)
unfolding flush getc exist_tx
flush_lem zero [] u output le = rw append-nil refl
flush_lem zero (c ∷ cs) u output le = absurd (omega arith)
flush_lem (suc fuel) [] u output le = rw append-nil refl
flush_lem (suc fuel) (c ∷ []) u output le =
    flush_lem fuel [] (record u { wait_ack = true }) (output ++ c ∷ []) (omega arith)
    ∙ rw append-nil refl
flush_lem (suc fuel) (c ∷ d ∷ cs) u output le =
    flush_lem fuel (d ∷ cs) u (output ++ c ∷ []) (omega arith)
    ∙ ap (λ text. some (emptied (record u { tx = c ∷ d ∷ cs }), text))
        (append_assoc output (c ∷ []) (d ∷ cs))

-- With fuel for the bytes that wait to be sent, a step of the adapter ends: it appends them to the
-- output in order and empties their queue, with an interrupt to acknowledge if there were any, and
-- takes up to 32 bytes of the input into the receive queue.
pub step_dev_lem :
    (fuel : ℕ) (a : CemuUartAdapter) (dev : CharDev)
    → length a.uart.tx ≤ fuel
    → step_dev fuel a dev
      ≡ some (
        record a {
          uart = record a.uart {
            tx = [];
            wait_ack = if is_empty a.uart.tx then a.uart.wait_ack else true;
            rx = a.uart.rx ++ take 32 dev.input;
          };
        },
        record { output = dev.output ++ a.uart.tx; input = drop 32 dev.input },
      )
unfolding step_dev
step_dev_lem fuel a dev le =
    ap (polled a dev) (flush_lem fuel a.uart.tx a.uart dev.output le)
    ∙ (ap
        (λ u. some (
          record a { uart = u },
          record { output = dev.output ++ a.uart.tx; input = drop 32 dev.input },
        ))
        (put_bytes_lem (take 32 dev.input) (emptied a.uart)))
