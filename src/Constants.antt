-- ===== src/Constants.antt =====
-- arm_simulator-1.4/arm_constants.h: modes, exceptions, CPSR bits, shift operations.
use uga_prog.Base.{ℕ}

abbrev pub usr : ℕ
usr = 0x10

abbrev pub fiq : ℕ
fiq = 0x11

abbrev pub irq : ℕ
irq = 0x12

abbrev pub svc : ℕ
svc = 0x13

abbrev pub abt : ℕ
abt = 0x17

abbrev pub und : ℕ
und = 0x1b

abbrev pub sys : ℕ
sys = 0x1f

abbrev pub reset : ℕ
reset = 1

abbrev pub undefined_instruction : ℕ
undefined_instruction = 2

abbrev pub prefetch_abort : ℕ
prefetch_abort = 4

abbrev pub data_abort : ℕ
data_abort = 5

abbrev pub interrupt : ℕ
interrupt = 6

abbrev pub software_interrupt : ℕ
software_interrupt = 3

abbrev pub n_bit : ℕ
n_bit = 31

abbrev pub z_bit : ℕ
z_bit = 30

abbrev pub c_bit : ℕ
c_bit = 29

abbrev pub v_bit : ℕ
v_bit = 28

abbrev pub lsl : ℕ
lsl = 0

abbrev pub lsr : ℕ
lsr = 1

abbrev pub asr_op : ℕ
asr_op = 2

abbrev pub ror_op : ℕ
ror_op = 3
