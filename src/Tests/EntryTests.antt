-- ===== src/Tests/EntryTests.antt =====
-- `kern_entry` of kernel/entry.c: the memory map of SetupTests, the stubs of InterruptTests, a processor that
-- sets the busy bit of the descriptor, and a TCB of the first thread at 0xC010_1234.
use bhos.Common.{ℕ, ◌+◌, ◌≡◌, ◌≢◌, refl, arith, true, some, [], ◌∷◌, Returns}
use bhos.Threads.{is_ready, is_running}
use bhos.Threads.Ring.{RingTo}
use bhos.Interrupt.Timer.{ticks}
use bhos.Threads.Schedule.{IsCurrent}
use bhos.Tss.{create_tss_desc}
use bhos.Entry.{System, BootArgs, kern_entry}
use bhos.Interrupt.{timer}
use bhos.Entry.Boot.{IsIdle, kern_entry-IsCurrent, kern_entry-ticks}
use bhos.Tests.PmmTests.{blank}
use bhos.Tests.SetupTests.{entries}
use bhos.Tests.InterruptTests.{at_boot, stub}
use bhos.Tests.TssTests.{before_init}
use bhos.Tests.ThreadsTests.{machine, no_pages}
use bhos.Tests.VmmTests.{pool, memory, memory-AreBytes, tables}
use bhos.Tests.SyncTests.{held}
use bhos.Tests.FormatTests.{console}

abbrev boot_args : BootArgs
boot_args = record {
  kern_end = 0x21_0000;
  entries = entries;
  kern_bitmap = 0xC030_0000;
  kern_dir = 0x10_0000;
  isr = stub;
  ltr = λ d. record d { attr_low_byte = d.attr_low_byte + 2 };
  tss_addr = 0xC021_1234;
  main = 0xC010_1234;
  exit_addr = 0xC010_0100;
  func = 0xC010_0200;
  data_selector = 0x10;
}

abbrev powered_on : System
powered_on = record {
  console = console;
  machine = record {
    threads = machine;
    vmm = record { words = tables; memory = memory; pmm = blank };
    user_vmm_pool = λ _. pool;
  };
  interrupts = at_boot;
  tss = before_init;
  lock = held;
  sem = held;
}

kern_entry-IsCurrent_example :
    Returns
      (λ _ t.
        ((page : ℕ) × IsCurrent no_pages t.machine.threads 0xC010_1234 (page ∷ [])
          × (is_ready (t.machine.threads.tcbs page).task_status ≡ true)
          × (t.machine.threads.int_flag ≡ true)
          × ((t.machine.threads.tcbs 0xC010_1234).time_left ≡ 10))
        × (t.console.printk_lock_init_flag ≡ true)
        × IsIdle t.console.printk_lock
        × IsIdle t.lock
        × (t.sem.val ≡ 2)
        × (t.interrupts.int_flag ≡ true)
        × (t.interrupts.int_server_func_list 32 ≡ some timer))
      (kern_entry boot_args powered_on)
unfolding create_tss_desc
kern_entry-IsCurrent_example =
    kern_entry-IsCurrent boot_args no_pages powered_on refl memory-AreBytes (λ a. omega arith)
      (omega arith) refl (omega arith) (omega arith) refl refl (λ x. refl)

kern_entry-ticks_example :
    Returns
      (λ _ t.
        (page : ℕ) × (page ≢ 0xC010_1234)
        × RingTo t.machine.threads.tcbs 0xC010_1234 0xC010_1234 (page ∷ [])
        × Returns
            (λ _ u. (u.cur ≡ some page) × (is_running (u.tcbs page).task_status ≡ true))
            (ticks no_pages 0x5000 t.interrupts 11 t.machine.threads))
      (kern_entry boot_args powered_on)
unfolding create_tss_desc
kern_entry-ticks_example =
    kern_entry-ticks boot_args no_pages 0x5000 powered_on refl memory-AreBytes (λ a. omega arith)
      (omega arith) refl (omega arith) (omega arith) refl refl (λ x. refl)
