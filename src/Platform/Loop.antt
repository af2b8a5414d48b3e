-- ===== src/Platform/Loop.antt =====
-- Run_Platform_API. What the harts share behind the bus is a state `S`: the record Machine says how
-- the bus works on it, where the two interrupt controllers stand in it, which devices raise their
-- interrupt and what a step of the console does to it. The lines of the harts are their fields
-- int_status, to which the constructor attaches both controllers.
use m_emu.Base.{ℕ, zero, suc, ◌+◌, Bool, List, [], Option, none, some, ◌==◌, if◌then◌else◌}
use m_emu.Rv64.{Rv64Core}
use m_emu.Gdb.{Session, Run, debug_gdb_stub}
use m_emu.Device.{ReturnFeedback, Access, done, failed, fault}
use m_emu.Mmu.{SysBus}
use m_emu.Core.{Hart, step}
use m_emu.Intc.{Lines}
use m_emu.Intc.ClintAdapter
use m_emu.Intc.ClintAdapter.{CemuClintAdapter}
use m_emu.Intc.PlicAdapter
use m_emu.Intc.PlicAdapter.{CemuPlicAdapter}

pub record Machine (S : Type 0) : Type 0 where
  pub sys_bus : SysBus S
  pub clint : S → CemuClintAdapter
  pub set_clint : CemuClintAdapter → S → S
  pub plic : S → CemuPlicAdapter
  pub set_plic : CemuPlicAdapter → S → S
  pub get_irq_status : S → ℕ → Bool
  pub step_uart : S → S

pub record DefaultPlatform (S : Type 0) : Type 0 where
  pub core0 : Rv64Core
  pub core1 : Rv64Core
  pub mem : S
  pub counter : ℕ

abbrev pub then_do : {A B : Type 0} → (A → Option B) → Option A → Option B
then_do f none = none
then_do f (some a) = f a

module _ {S : Type 0} where
  abbrev pub lines : DefaultPlatform S → Lines
  lines p = record { core0 = p.core0.int_status; core1 = p.core1.int_status }

  abbrev pub set_lines : Lines → DefaultPlatform S → DefaultPlatform S
  set_lines l p = record p {
    core0 = record p.core0 { int_status = l.core0 };
    core1 = record p.core1 { int_status = l.core1 };
  }

  module _ (machine : Machine S) where
    abbrev pub clint_updated :
        DefaultPlatform S → Access (CemuClintAdapter × Lines) → Option (DefaultPlatform S)
    clint_updated p (done (a, l)) =
        some (set_lines l (record p { mem = machine.set_clint a p.mem }))
    clint_updated p failed = none
    clint_updated p fault = none

    unfoldable pub update_clint : DefaultPlatform S → Option (DefaultPlatform S)
    update_clint p =
        clint_updated p (m_emu.Intc.ClintAdapter.update_int_state (machine.clint p.mem) (lines p))

    abbrev pub plic_updated :
        DefaultPlatform S → Access (CemuPlicAdapter × Lines) → Option (DefaultPlatform S)
    plic_updated p (done (a, l)) = some (set_lines l (record p { mem = machine.set_plic a p.mem }))
    plic_updated p failed = none
    plic_updated p fault = none

    unfoldable pub update_plic : DefaultPlatform S → Option (DefaultPlatform S)
    update_plic p = plic_updated p (
        m_emu.Intc.PlicAdapter.update_int_state (machine.get_irq_status p.mem) (machine.plic p.mem)
          (lines p))

    abbrev pub stepped0 :
        DefaultPlatform S → Option (Hart S × Unit {0}) → Option (DefaultPlatform S)
    stepped0 p none = none
    stepped0 p (some (h, value)) = some (record p { core0 = h.core; mem = h.mem })

    unfoldable pub step_core0 : DefaultPlatform S → Option (DefaultPlatform S)
    step_core0 p = stepped0 p (step machine.sys_bus (record { core = p.core0; mem = p.mem }))

    abbrev pub stepped1 :
        DefaultPlatform S → Option (Hart S × Unit {0}) → Option (DefaultPlatform S)
    stepped1 p none = none
    stepped1 p (some (h, value)) = some (record p { core1 = h.core; mem = h.mem })

    unfoldable pub step_core1 : DefaultPlatform S → Option (DefaultPlatform S)
    step_core1 p = stepped1 p (step machine.sys_bus (record { core = p.core1; mem = p.mem }))

    -- The console is served in every hundredth round.
    unfoldable pub dev_action : DefaultPlatform S → DefaultPlatform S
    dev_action p =
        if p.counter + 1 == 100
        then record p { counter = 0; mem = machine.step_uart p.mem }
        else record p { counter = p.counter + 1 }

    -- One round of the loop.
    unfoldable pub run_once : DefaultPlatform S → Option (DefaultPlatform S)
    run_once p =
        then_do (λ q. some (dev_action q))
          (then_do step_core1 (then_do step_core0 (then_do update_plic (update_clint p))))

    -- `n` rounds.
    unfoldable pub run : ℕ → DefaultPlatform S → Option (DefaultPlatform S)
    run zero p = some p
    run (suc n) p = then_do (run n) (run_once p)

    -- Debug_Platform_API, for `n` rounds with a debugger that sends `incoming`, on the
    -- first hart.
    unfoldable pub debug_platform :
        ℕ → ℕ → (ℕ → ℕ → ℕ) → Bool → ℕ → List ℕ → DefaultPlatform S → Run (Session S)
    debug_platform fuel stack_size scan_check_sum debug n incoming p =
        debug_gdb_stub machine.sys_bus fuel stack_size scan_check_sum debug n (record {
          link = record { incoming = incoming; sent = [] };
          hart = record { core = p.core0; mem = p.mem };
          watch_points = [];
        })

-- Init_Platform_API, with the feedback of the console.
abbrev pub init_platform : ReturnFeedback → ReturnFeedback
init_platform ReturnFeedback.ok = ReturnFeedback.ok
init_platform feedback = feedback
