-- ===== src/Csr/Addr.antt =====
-- RV_CSR_Addr_enum of modules/core/rv64/include/rv64_csr_structs.h. The 20 enumerators of machine
-- memory protection, pmpcfg0 to pmpaddr15, and every other 12-bit index come to `unknown`: no
-- switch of the core names one of them.
use m_emu.Base.{ℕ, ◌==◌, if◌then◌else◌}

pub data RvCsrAddr : Type 0 where
  cycle time instret sstatus sie stvec : RvCsrAddr
  scounteren sscratch sepc scause stval sip : RvCsrAddr
  satp mvendorid marchid mimpid mhartid mconfigptr : RvCsrAddr
  mstatus misa medeleg mideleg mie mtvec : RvCsrAddr
  mcounteren mscratch mepc mcause mtval mip : RvCsrAddr
  mcycle minstret tselect tdata1 : RvCsrAddr
  unknown : ℕ → RvCsrAddr

-- The value of the enumerator.
unfoldable pub csr_index : RvCsrAddr → ℕ
csr_index RvCsrAddr.cycle = 0xc00
csr_index RvCsrAddr.time = 0xc01
csr_index RvCsrAddr.instret = 0xc02
csr_index RvCsrAddr.sstatus = 0x100
csr_index RvCsrAddr.sie = 0x104
csr_index RvCsrAddr.stvec = 0x105
csr_index RvCsrAddr.scounteren = 0x106
csr_index RvCsrAddr.sscratch = 0x140
csr_index RvCsrAddr.sepc = 0x141
csr_index RvCsrAddr.scause = 0x142
csr_index RvCsrAddr.stval = 0x143
csr_index RvCsrAddr.sip = 0x144
csr_index RvCsrAddr.satp = 0x180
csr_index RvCsrAddr.mvendorid = 0xf11
csr_index RvCsrAddr.marchid = 0xf12
csr_index RvCsrAddr.mimpid = 0xf13
csr_index RvCsrAddr.mhartid = 0xf14
csr_index RvCsrAddr.mconfigptr = 0xf15
csr_index RvCsrAddr.mstatus = 0x300
csr_index RvCsrAddr.misa = 0x301
csr_index RvCsrAddr.medeleg = 0x302
csr_index RvCsrAddr.mideleg = 0x303
csr_index RvCsrAddr.mie = 0x304
csr_index RvCsrAddr.mtvec = 0x305
csr_index RvCsrAddr.mcounteren = 0x306
csr_index RvCsrAddr.mscratch = 0x340
csr_index RvCsrAddr.mepc = 0x341
csr_index RvCsrAddr.mcause = 0x342
csr_index RvCsrAddr.mtval = 0x343
csr_index RvCsrAddr.mip = 0x344
csr_index RvCsrAddr.mcycle = 0xb00
csr_index RvCsrAddr.minstret = 0xb02
csr_index RvCsrAddr.tselect = 0x7a0
csr_index RvCsrAddr.tdata1 = 0x7a1
csr_index (RvCsrAddr.unknown i) = i

-- The cast `(RV_CSR_Addr_enum)i` as a switch over the enumerators reads it.
unfoldable pub to_csr_addr : ℕ → RvCsrAddr
to_csr_addr i =
    if i == 0xc00
    then RvCsrAddr.cycle
    else if i == 0xc01
    then RvCsrAddr.time
    else if i == 0xc02
    then RvCsrAddr.instret
    else if i == 0x100
    then RvCsrAddr.sstatus
    else if i == 0x104
    then RvCsrAddr.sie
    else if i == 0x105
    then RvCsrAddr.stvec
    else if i == 0x106
    then RvCsrAddr.scounteren
    else if i == 0x140
    then RvCsrAddr.sscratch
    else if i == 0x141
    then RvCsrAddr.sepc
    else if i == 0x142
    then RvCsrAddr.scause
    else if i == 0x143
    then RvCsrAddr.stval
    else if i == 0x144
    then RvCsrAddr.sip
    else if i == 0x180
    then RvCsrAddr.satp
    else if i == 0xf11
    then RvCsrAddr.mvendorid
    else if i == 0xf12
    then RvCsrAddr.marchid
    else if i == 0xf13
    then RvCsrAddr.mimpid
    else if i == 0xf14
    then RvCsrAddr.mhartid
    else if i == 0xf15
    then RvCsrAddr.mconfigptr
    else if i == 0x300
    then RvCsrAddr.mstatus
    else if i == 0x301
    then RvCsrAddr.misa
    else if i == 0x302
    then RvCsrAddr.medeleg
    else if i == 0x303
    then RvCsrAddr.mideleg
    else if i == 0x304
    then RvCsrAddr.mie
    else if i == 0x305
    then RvCsrAddr.mtvec
    else if i == 0x306
    then RvCsrAddr.mcounteren
    else if i == 0x340
    then RvCsrAddr.mscratch
    else if i == 0x341
    then RvCsrAddr.mepc
    else if i == 0x342
    then RvCsrAddr.mcause
    else if i == 0x343
    then RvCsrAddr.mtval
    else if i == 0x344
    then RvCsrAddr.mip
    else if i == 0xb00
    then RvCsrAddr.mcycle
    else if i == 0xb02
    then RvCsrAddr.minstret
    else if i == 0x7a0
    then RvCsrAddr.tselect
    else if i == 0x7a1
    then RvCsrAddr.tdata1
    else RvCsrAddr.unknown i
