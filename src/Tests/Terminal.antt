-- ===== src/Tests/Terminal.antt =====
-- The theorem on the console at its terminal at a concrete input.
use m_emu.Base.{true, ◌≡◌, some, [], ◌∷◌, ◌++◌, take, drop, if◌then◌else◌, arith}
use m_emu.Uart.{create}
use m_emu.Uart.{is_empty}
use m_emu.Uart.Adapter.{CharDev, CemuUartAdapter, step_dev}
use m_emu.Uart.Terminal.{step_dev_lem}

-- Two characters wait to be sent, and two to be read.
abbrev adapter : CemuUartAdapter
adapter = record { uart = record create { tx = 104 ∷ 105 ∷ [] }; addr_region_size = 16 }

abbrev terminal : CharDev
terminal = record { output = 62 ∷ []; input = 108 ∷ 115 ∷ [] }

step_dev_example :
    step_dev 2 adapter terminal
    ≡ some (
      record adapter {
        uart = record adapter.uart {
          tx = [];
          wait_ack = if is_empty adapter.uart.tx then adapter.uart.wait_ack else true;
          rx = adapter.uart.rx ++ take 32 terminal.input;
        };
      },
      record { output = terminal.output ++ adapter.uart.tx; input = drop 32 terminal.input },
    )
step_dev_example = step_dev_lem 2 adapter terminal (omega arith)
