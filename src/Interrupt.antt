-- ===== src/Interrupt.antt =====
-- Interrupt tables: kernel/modules/interrupt/interrupt.c, include/interrupt.h, the interrupt controller of
-- kernel/drivers/_8259A/_8259A.c and the registration of kernel/drivers/keyboard/keyboard.c.
--
-- `ports` is the sequence of bytes that were written to ports. The stubs `isr0` to `isr47` are assembly:
-- `isr n` is the address of stub n. Interrupt numbers are below 256, the size of both tables. The calls
-- that `idt_init` writes out for each number in turn are recursions on the number. `load_idt` and the
-- text that a server prints leave nothing here.
pub mod Tables
pub mod Timer
use bhos.Common.{
  ℕ, zero, suc, ◌*◌, ◌/◌, ◌%◌, ◌^◌, Bool, false, Option, none, some, List, [], ◌∷◌, ◌++◌, ◌==◌,
  if◌then◌else◌, shr, update, bit_and, fault, Fault, Cmd, pure,
}
use bhos.Threads.{Threads, timer_server_func}

-- interrupt_discripter_t
pub record Descriptor : Type 0 where
  pub offset_low : ℕ
  pub selector : ℕ
  pub default_bit8 : ℕ
  pub inf : ℕ
  pub offset_high : ℕ

-- The functions that the kernel registers.
pub data Server : Type 0 where
  default page_fault timer keyboard : Server

pub record Interrupts : Type 0 where
  pub idt_entries : ℕ → Descriptor
  pub int_server_func_list : ℕ → Option Server
  pub limit : ℕ
  pub ports : List (ℕ × ℕ)
  pub int_flag : Bool

abbrev pub default_inf : ℕ
default_inf = 0x8E

abbrev pub kern_cs : ℕ
kern_cs = 0x08

abbrev pub outb : ℕ → ℕ → Interrupts → Interrupts
outb port value s = record s { ports = s.ports ++ ((port, value % 2 ^ 8) ∷ []) }

unfoldable pub set_int_disc : ℕ → ℕ → ℕ → ℕ → Interrupts → Interrupts
set_int_disc int_no offset selector inf s = record s {
  idt_entries = update s.idt_entries int_no (record {
    offset_low = offset % 2 ^ 16;
    selector = selector;
    default_bit8 = 0;
    inf = inf;
    offset_high = shr offset 16 % 2 ^ 16;
  });
}

unfoldable pub timer_init : ℕ → Interrupts → Interrupts
timer_init frequency s =
    let divisor = 1193180 / frequency in
    let low = bit_and divisor 0xFF in
    let hign = bit_and (shr divisor 8) 0xFF in outb 0x40 hign (outb 0x40 low (outb 0x43 0x36 s))

unfoldable pub register_interrupt : ℕ → Server → Interrupts → Interrupts
register_interrupt int_no target_func s = record s {
  int_server_func_list = update s.int_server_func_list int_no (some target_func);
}

-- `_8259A_init`: main controller, then the other one.
unfoldable pub init_8259A : Interrupts → Interrupts
init_8259A s =
    let main = outb 0x21 0x01 (outb 0x21 0x04 (outb 0x21 0x20 (outb 0x20 0x11 s))) in
    outb 0xA1 0x01 (outb 0xA1 0x02 (outb 0xA1 0x28 (outb 0xA0 0x11 main)))

-- set_int_disc(0, isr0, …); set_int_disc(1, isr1, …); … for the first `count` numbers.
unfoldable pub set_int_discs : (ℕ → ℕ) → ℕ → Interrupts → Interrupts
unfolding set_int_disc
set_int_discs isr zero s = s
set_int_discs isr (suc n) s = set_int_disc n (isr n) kern_cs default_inf (set_int_discs isr n s)

-- register_interrupt(0, default_server_func); … for the first `count` numbers but 32.
unfoldable pub register_defaults : ℕ → Interrupts → Interrupts
unfolding register_interrupt
register_defaults zero s = s
register_defaults (suc n) s =
    let rest = register_defaults n s in
    if n == 32 then rest else register_interrupt n Server.default rest

unfoldable pub idt_init : (ℕ → ℕ) → Interrupts → Interrupts
unfolding register_interrupt init_8259A timer_init
idt_init isr s =
    let s1 = register_defaults 48 (set_int_discs isr 48 (init_8259A s)) in
    let s2 = register_interrupt 32 timer (register_interrupt 14 page_fault s1) in
    record (timer_init 1000 (record s2 { limit = 8 * 256 })) { int_flag = false }

abbrev pub keyboard_init : Interrupts → Interrupts
keyboard_init = register_interrupt 33 keyboard

module _ (v2p : ℕ → ℕ) (kern_dir : ℕ) where
  -- What a server does to the threads: all but the timer's only print.
  abbrev pub serve : Server → Cmd Threads (Unit {0})
  serve timer = timer_server_func v2p kern_dir
  serve _ = pure tt

  -- An entry that nothing was registered for is NULL, and is called all the same.
  unfoldable pub int_func_route : Interrupts → ℕ → Cmd Threads (Unit {0})
  int_func_route s int_no threads = elim (s.int_server_func_list int_no) [
    | none ↦ fault Fault.null_pointer
    | some server ↦ serve server threads
  ]
