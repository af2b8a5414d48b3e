-- ===== src/Tests/Platform.antt =====
-- The theorems on the platform at concrete inputs.
use m_emu.Base.{
  ℕ, suc, ◌≡◌, ◌≢◌, refl, true, false, some, [], List, length, replicate, length-replicate, ◌∷◌,
  arith,
}
use m_emu.Words.{test_bit}
use m_emu.Rv64.{m_mode_int_mask, Rv64Core}
use m_emu.Rv64.Reset.{reset}
use m_emu.Csr.Legal.{bit_and-IsWithin, IsLegal, reset-IsLegal}
use m_emu.Trap.Policy.{int_bits}
use m_emu.Clint
use m_emu.Plic
use m_emu.Intc.ClintAdapter.{CemuClintAdapter}
use m_emu.Intc.PlicAdapter.{CemuPlicAdapter}
use m_emu.Core.{Hart, step}
use m_emu.Core.StepUnchecked.{IsBlank}
use m_emu.Core.Interrupted.{TakesInterrupt, step-interrupt}
use m_emu.Platform.{
  Machine, DefaultPlatform, then_do, update_clint, update_plic, step_core0, run, Shared, boot,
  ram_size,
}
use m_emu.Platform.Booted.{Booted, boot-Booted}
use m_emu.Platform.Valid.{int_status-IsLegal, IsValid, Ends, run-IsValid}
use m_emu.Platform.Timer.{timer_waits, step_core0-due}
use m_emu.Tests.Samples.{raw_core}
use m_emu.Tests.Step.{user_hart, start-GprIsValid, start-IsLegal, start-IsBlank}

-- The two controllers and a count of the steps of the console.
pub record World : Type 0 where
  pub clint : CemuClintAdapter
  pub plic : CemuPlicAdapter
  pub count : ℕ

abbrev machine : Machine World
machine = record {
  sys_bus = record {
    read = λ addr size w. (w, some (0 ∷ 0 ∷ 0 ∷ 0 ∷ []));
    write = λ addr bytes w. (w, true);
  };
  clint = λ w. w.clint;
  set_clint = λ c w. record w { clint = c };
  plic = λ w. w.plic;
  set_plic = λ c w. record w { plic = c };
  get_irq_status = λ w dev. false;
  step_uart = λ w. record w { count = suc w.count };
}

-- The comparator of hart 0 is 0, and its timer interrupt is enabled.
abbrev waiting : Rv64Core
waiting = record user_hart { csr_int_enable = 128 }

abbrev start : DefaultPlatform World
start = record {
  core0 = waiting;
  core1 = user_hart;
  mem = record {
    clint = record { int_ctrl = m_emu.Clint.create 2; int_dev_map = []; addr_region_size = 0xc000 };
    plic = record {
      int_ctrl = m_emu.Plic.create 4 4;
      int_dev_map = (1, 7) ∷ [];
      addr_region_size = 0x4000000;
    };
    count = 0;
  };
  counter = 0;
}

enabled : test_bit waiting.csr_int_enable 7 ≡ true
unfolding test_bit
enabled = refl

waiting-IsLegal : IsLegal waiting
waiting-IsLegal =
    let r : IsLegal (reset raw_core) = reset-IsLegal raw_core in
    record {
      mideleg = r.mideleg;
      medeleg = r.medeleg;
      mie = bit_and-IsWithin 128 m_mode_int_mask;
      mip = r.mip;
      mcounteren = r.mcounteren;
      scounteren = r.scounteren;
      mtvec = r.mtvec;
      stvec = r.stvec;
      satp_mode = r.satp_mode;
    }

waiting-IsBlank : IsBlank waiting
unfolding IsBlank
waiting-IsBlank = start-IsBlank

start-IsValid : IsValid start
start-IsValid = record {
  gpr0 = record { count = refl; x0 = refl };
  gpr1 = start-GprIsValid;
  legal0 = waiting-IsLegal;
  legal1 = start-IsLegal;
  counter = omega arith;
}

run-IsValid_example : Ends IsValid (run machine 7 start)
run-IsValid_example = run-IsValid machine 7 start start-IsValid

step_core0-due_example :
    (q r : DefaultPlatform World) × (then_do (update_plic machine) (update_clint machine start)
      ≡ some q)
    × (step_core0 machine q ≡ some r)
    × TakesInterrupt q.core0 r.core0
    × (q.core0 ≡ record start.core0 { int_status = q.core0.int_status })
unfolding Plic.create m_emu.Clint.create
step_core0-due_example =
    step_core0-due machine start (record { plic-set_clint = λ a w. refl }) (omega arith, tt)
      (omega arith) waiting-IsLegal waiting-IsBlank refl enabled

-- The timer line of the hart is up.
abbrev due : Hart World
due = record {
  core = record waiting { int_status = record waiting.int_status { mtip = true } };
  mem = start.mem;
}

due_bits : int_bits due.core ≢ 0
due_bits = timer_waits due.core refl enabled

due-IsLegal : IsLegal due.core
due-IsLegal = int_status-IsLegal waiting due.core.int_status waiting-IsLegal

due-IsBlank : IsBlank due.core
unfolding IsBlank
due-IsBlank = start-IsBlank

step-interrupt_example :
    (t : Hart World) × (step machine.sys_bus due ≡ some (t, tt))
    × (t.mem ≡ due.mem)
    × TakesInterrupt due.core t.core
step-interrupt_example = step-interrupt machine.sys_bus due due-IsLegal due-IsBlank refl due_bits

-- A memory of any size.
blank_memory : (n : ℕ) → (memory : List ℕ) × (length memory ≡ n)
blank_memory n = (replicate n 0, length-replicate n 0)

boot-Booted_example :
    (p : DefaultPlatform Shared) × (boot raw_core raw_core
        (blank_memory ram_size).0
        (0x13 ∷ 0 ∷ 0 ∷ 0 ∷ [])
      ≡ some p)
    × Booted (0x13 ∷ 0 ∷ 0 ∷ 0 ∷ []) p
boot-Booted_example =
    boot-Booted raw_core raw_core (blank_memory ram_size).0 (0x13 ∷ 0 ∷ 0 ∷ 0 ∷ []) refl refl
      (blank_memory ram_size).1 (omega arith)
