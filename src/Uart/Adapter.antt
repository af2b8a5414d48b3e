-- ===== src/Uart/Adapter.antt =====
-- CemuUartAdapter (modules/dev/uartlite/include/MMIODev_CemuUartAdapter.hpp). The character device
-- is what it was sent and what waits to be read. `poll` reports a device that has something to
-- read, and `read` takes at most 32 bytes of it. getenv and fopen are parameters.
use m_emu.Base.{
  ℕ, zero, suc, Bool, Option, none, some, List, [], ◌∷◌, ◌++◌, leb, if◌then◌else◌, length, take,
  drop,
}
use m_emu.Device.{ReturnFeedback, Access, fault, end_addr, map_access}
use m_emu.Uart.Defs.{Uartlite, do_read, do_write, putc, getc, exist_tx, irq}

pub record CharDev : Type 0 where
  pub output : List ℕ
  pub input : List ℕ

pub record CemuUartAdapter : Type 0 where
  pub uart : Uartlite
  pub addr_region_size : ℕ

unfoldable pub read_buffer : ℕ → ℕ → CemuUartAdapter → Access (CemuUartAdapter × List ℕ)
read_buffer begin_addr size a =
    if leb (end_addr begin_addr size) a.addr_region_size
    then map_access (λ r. (record a { uart = r.0 }, r.1)) (do_read begin_addr size a.uart)
    else fault

unfoldable pub write_buffer : ℕ → List ℕ → CemuUartAdapter → Access CemuUartAdapter
write_buffer begin_addr buffer a =
    if leb (end_addr begin_addr (length buffer)) a.addr_region_size
    then map_access (λ u. record a { uart = u }) (do_write begin_addr buffer a.uart)
    else fault

abbrev pub get_irq_status : CemuUartAdapter → Bool
get_irq_status a = irq a.uart

-- EOF, which fputc writes as 255, does not come up while exist_tx holds.
abbrev pub char_of : Option ℕ → ℕ
char_of none = 255
char_of (some c) = c

-- The loop that empties the queue, on fuel; `none` is a loop that is not at its end.
unfoldable pub flush : ℕ → Uartlite → List ℕ → Option (Uartlite × List ℕ)
flush zero u output = if exist_tx u then none else some (u, output)
flush (suc fuel) u output =
    let (rest, c) = getc u in
    let later = flush fuel rest (output ++ char_of c ∷ []) in
    if exist_tx u then later else some (u, output)

-- The loop over the bytes that were read.
unfoldable pub put_bytes : List ℕ → Uartlite → Uartlite
put_bytes [] u = u
put_bytes (c ∷ cs) u = put_bytes cs (putc c u)

-- What poll finds after the output was flushed.
abbrev pub polled :
    CemuUartAdapter → CharDev → Option (Uartlite × List ℕ) → Option (CemuUartAdapter × CharDev)
polled a dev none = none
polled a dev (some (u, output)) = some (
  record a { uart = put_bytes (take 32 dev.input) u },
  record { output = output; input = drop 32 dev.input },
)

-- Step_MMIODev_API, with fuel for the first loop.
unfoldable pub step_dev : ℕ → CemuUartAdapter → CharDev → Option (CemuUartAdapter × CharDev)
step_dev fuel a dev = polled a dev (flush fuel a.uart dev.output)

-- TTY_DEV_ENV_KEY
abbrev pub tty_dev_env_key : List ℕ
tty_dev_env_key =
    b'M' ∷ b'E' ∷ b'M' ∷ b'U' ∷ b'_' ∷ b'U' ∷ b'A' ∷ b'R' ∷ b'T' ∷ b'L' ∷ b'I' ∷ b'T' ∷ b'E' ∷ b'_'
    ∷ b'T' ∷ b'T' ∷ b'Y' ∷ []

module _ (getenv : List ℕ → Option (List ℕ)) (fopen : List ℕ → Option CharDev) where
  abbrev pub opened : Option CharDev → ReturnFeedback × Option CharDev
  opened none = (ReturnFeedback.file_open_err, none)
  opened (some dev) = (ReturnFeedback.ok, some dev)

  -- Init_MMIODev_API: the feedback and char_dev_file, which is `before` if there is no path.
  unfoldable pub init_mmio_dev : Option CharDev → ReturnFeedback × Option CharDev
  init_mmio_dev before = elim (getenv tty_dev_env_key) [
    | none ↦ (ReturnFeedback.module_missing_env, before)
    | some path ↦ opened (fopen path)
  ]
