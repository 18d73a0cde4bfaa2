-- ===== src/Tests/InterruptTests.antt =====
-- The interrupt tables, kernel/modules/interrupt/interrupt.c, with stubs 64 bytes apart, and the timer with
-- the three threads of ThreadsTests.
use bhos.Common.{
  ℕ, ◌+◌, ◌*◌, ◌≡◌, refl, arith, true, false, none, [], ◌∷◌, Returns, if◌then◌else◌, ltb,
}
use bhos.Threads.Schedule.{IsDispatched, chosen}
use bhos.Tests.ThreadsTests.{machine, no_pages, machine-IsCurrent}
use bhos.Interrupt.{Descriptor, Interrupts, idt_init, timer_init}
use bhos.Interrupt.Tables.{gate, offset_of, servers, idt_init-gate}
use bhos.Interrupt.Timer.{ticks, ticks-IsDispatched}

abbrev no_gate : Descriptor
no_gate = record { offset_low = 0; selector = 0; default_bit8 = 0; inf = 0; offset_high = 0 }

abbrev pub at_boot : Interrupts
at_boot = record {
  idt_entries = λ _. no_gate;
  int_server_func_list = λ _. none;
  limit = 0;
  ports = [];
  int_flag = true;
}

abbrev pub stub : ℕ → ℕ
stub n = 0xC020_0000 + 64 * n

abbrev timer_ports : Interrupts
timer_ports = record at_boot { ports = (0x43, 0x36) ∷ (0x40, 0xA9) ∷ (0x40, 0x04) ∷ [] }

timer_init_test : timer_init 1000 at_boot ≡ timer_ports
unfolding timer_init
timer_init_test = refl

idt_init-gate_example :
    ((idt_init stub at_boot).idt_entries 33 ≡ (if ltb 33 48 then gate (stub 33) else no_gate))
    × (offset_of (gate (stub 33)) ≡ stub 33)
    × ((idt_init stub at_boot).int_server_func_list 33 ≡ servers at_boot.int_server_func_list 33)
    × ((idt_init stub at_boot).int_flag ≡ false)
idt_init-gate_example = idt_init-gate stub at_boot 33 (omega arith)

ticks-IsDispatched_example :
    Returns
      (λ _ t.
        IsDispatched machine t 0x10 (0x20 ∷ 0x30 ∷ []) (chosen machine 0x10 (0x20 ∷ 0x30 ∷ [])))
      (ticks no_pages 0x5000 (idt_init stub at_boot) 1 machine)
ticks-IsDispatched_example =
    ticks-IsDispatched no_pages 0x5000 stub at_boot 0 machine 0x10 (0x20 ∷ 0x30 ∷ [])
      machine-IsCurrent refl
