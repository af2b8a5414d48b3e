-- ===== src/Platform/Valid.antt =====
-- What the rounds of the platform keep.
use m_emu.Base.{
  Bool-cases, inl, inr, ℕ, zero, suc, ◌+◌, ◌<◌, ◌≡◌, refl, Option, none, some, ◌==◌, arith,
}
use m_emu.Rv64.{Rv64Core, IntStatus}
use m_emu.Rv64.Reset.{GprIsValid}
use m_emu.Csr.Legal.{IsLegal}
use m_emu.Device.{Access, done, failed, fault}
use m_emu.Intc.{Lines}
use m_emu.Intc.ClintAdapter.{CemuClintAdapter}
use m_emu.Intc.PlicAdapter.{CemuPlicAdapter}
use m_emu.Core.{Hart, step}
use m_emu.Core.Invariants.{step-GprIsValid}
use m_emu.Core.StepLegal.{step-IsLegal}
use m_emu.Platform.Loop.{
  Machine, set_lines, DefaultPlatform, then_do, clint_updated, update_clint, plic_updated,
  update_plic, stepped0, step_core0, stepped1, step_core1, dev_action, run_once, run,
}

-- Both harts have their 32 registers with the zero and legal CSRs, and the counter is below 100.
pub record IsValid {S : Type 0} (p : DefaultPlatform S) : Type 0 where
  pub gpr0 : GprIsValid p.core0
  pub gpr1 : GprIsValid p.core1
  pub legal0 : IsLegal p.core0
  pub legal1 : IsLegal p.core1
  pub counter : p.counter < 100

unfoldable pub Ends : {A : Type 0} → (A → Type 0) → Option A → Type 0
Ends P none = Unit {0}
Ends P (some a) = P a

then_do-Ends :
    {A B : Type 0} (P : A → Type 0) (Q : B → Type 0) (f : A → Option B) (o : Option A)
    → Ends P o
    → ((a : A) → P a → Ends Q (f a))
    → Ends Q (then_do f o)
unfolding Ends
then_do-Ends P Q f none h k = tt
then_do-Ends P Q f (some a) h k = k a h

int_status-GprIsValid :
    (s : Rv64Core) (i : IntStatus) → GprIsValid s → GprIsValid (record s { int_status = i })
int_status-GprIsValid s i v = record { count = v.count; x0 = v.x0 }

pub int_status-IsLegal :
    (s : Rv64Core) (i : IntStatus) → IsLegal s → IsLegal (record s { int_status = i })
int_status-IsLegal s i v = record {
  mideleg = v.mideleg;
  medeleg = v.medeleg;
  mie = v.mie;
  mip = v.mip;
  mcounteren = v.mcounteren;
  scounteren = v.scounteren;
  mtvec = v.mtvec;
  stvec = v.stvec;
  satp_mode = v.satp_mode;
}

set_lines-IsValid :
    {S : Type 0} (p : DefaultPlatform S) (l : Lines) (m : S)
    → IsValid p
    → IsValid (set_lines l (record p { mem = m }))
set_lines-IsValid p l m v = record {
  gpr0 = int_status-GprIsValid p.core0 l.core0 v.gpr0;
  gpr1 = int_status-GprIsValid p.core1 l.core1 v.gpr1;
  legal0 = int_status-IsLegal p.core0 l.core0 v.legal0;
  legal1 = int_status-IsLegal p.core1 l.core1 v.legal1;
  counter = v.counter;
}

module _ {S : Type 0} (machine : Machine S) where
  clint-IsValid :
      (p : DefaultPlatform S) (r : Access (CemuClintAdapter × Lines))
      → IsValid p
      → Ends IsValid (clint_updated machine p r)
  unfolding Ends
  clint-IsValid p (done (a, l)) v = set_lines-IsValid p l _ v
  clint-IsValid p failed v = tt
  clint-IsValid p fault v = tt

  plic-IsValid :
      (p : DefaultPlatform S) (r : Access (CemuPlicAdapter × Lines))
      → IsValid p
      → Ends IsValid (plic_updated machine p r)
  unfolding Ends
  plic-IsValid p (done (a, l)) v = set_lines-IsValid p l _ v
  plic-IsValid p failed v = tt
  plic-IsValid p fault v = tt

  stepped0-IsValid :
      (p : DefaultPlatform S) (r : Option (Hart S × Unit {0}))
      → IsValid p
      → step machine.sys_bus (record { core = p.core0; mem = p.mem }) ≡ r
      → Ends IsValid (stepped0 machine p r)
  unfolding Ends
  stepped0-IsValid p none v e = tt
  stepped0-IsValid p (some (h, value)) v e = record {
    gpr0 = step-GprIsValid machine.sys_bus _ v.gpr0 e;
    gpr1 = v.gpr1;
    legal0 = step-IsLegal machine.sys_bus _ v.legal0 e;
    legal1 = v.legal1;
    counter = v.counter;
  }

  stepped1-IsValid :
      (p : DefaultPlatform S) (r : Option (Hart S × Unit {0}))
      → IsValid p
      → step machine.sys_bus (record { core = p.core1; mem = p.mem }) ≡ r
      → Ends IsValid (stepped1 machine p r)
  unfolding Ends
  stepped1-IsValid p none v e = tt
  stepped1-IsValid p (some (h, value)) v e = record {
    gpr0 = v.gpr0;
    gpr1 = step-GprIsValid machine.sys_bus _ v.gpr1 e;
    legal0 = v.legal0;
    legal1 = step-IsLegal machine.sys_bus _ v.legal1 e;
    counter = v.counter;
  }

  dev_action-IsValid : (p : DefaultPlatform S) → IsValid p → IsValid (dev_action machine p)
  unfolding dev_action
  dev_action-IsValid p v = elim (Bool-cases (p.counter + 1 == 100)) [
    | inl e ↦ rw e (record {
      gpr0 = v.gpr0;
      gpr1 = v.gpr1;
      legal0 = v.legal0;
      legal1 = v.legal1;
      counter = omega arith;
    })
    | inr e ↦ rw e (record {
      gpr0 = v.gpr0;
      gpr1 = v.gpr1;
      legal0 = v.legal0;
      legal1 = v.legal1;
      counter = ground (arith, v.counter, e);
    })
  ]

  update_clint-IsValid : (p : DefaultPlatform S) → IsValid p → Ends IsValid (update_clint machine p)
  unfolding update_clint
  update_clint-IsValid p v = clint-IsValid p _ v

  update_plic-IsValid : (p : DefaultPlatform S) → IsValid p → Ends IsValid (update_plic machine p)
  unfolding update_plic
  update_plic-IsValid p v = plic-IsValid p _ v

  step_core0-IsValid : (p : DefaultPlatform S) → IsValid p → Ends IsValid (step_core0 machine p)
  unfolding step_core0
  step_core0-IsValid p v = stepped0-IsValid p _ v refl

  step_core1-IsValid : (p : DefaultPlatform S) → IsValid p → Ends IsValid (step_core1 machine p)
  unfolding step_core1
  step_core1-IsValid p v = stepped1-IsValid p _ v refl

  finished-IsValid :
      (p : DefaultPlatform S) → IsValid p → Ends IsValid (some (dev_action machine p))
  unfolding Ends
  finished-IsValid p v = dev_action-IsValid p v

  run_once-IsValid : (p : DefaultPlatform S) → IsValid p → Ends IsValid (run_once machine p)
  unfolding run_once
  run_once-IsValid p v =
      then_do-Ends IsValid IsValid _ _
        (then_do-Ends IsValid IsValid _ _
          (then_do-Ends IsValid IsValid _ _
            (then_do-Ends IsValid IsValid _ _ (update_clint-IsValid p v) update_plic-IsValid)
            step_core0-IsValid)
          step_core1-IsValid)
        finished-IsValid

  -- From a valid state, however many rounds of the platform's loop are run and whatever the devices
  -- do to the lines and the memory: in the state the rounds end in, if no assertion stops them, both
  -- harts have their 32 registers with x0 zero and legal CSRs, and the counter of rounds is below
  -- 100.
  pub run-IsValid : (n : ℕ) (p : DefaultPlatform S) → IsValid p → Ends IsValid (run machine n p)
  unfolding run Ends
  run-IsValid zero p v = v
  run-IsValid (suc n) p v =
      then_do-Ends IsValid IsValid (run machine n) (run_once machine p) (run_once-IsValid p v)
        (run-IsValid n)
