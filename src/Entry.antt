-- ===== src/Entry.antt =====
-- `kern_entry` of kernel/entry.c, up to the line that it prints at the end, before it loops for ever.
--
-- The system joins the states of the components. A lock has the threads of its own state; here the locks are
-- only set up, and the threads are those of the machine. What the boot code, the linker and the assembly
-- give is the record of arguments.
pub mod Ready
pub mod Boot
use bhos.Common.{ℕ, true, List, fault, ok, Cmd, ◌>>◌}
use bhos.Bitmap.{Memory}
use bhos.Pmm.{Pmm}
use bhos.Pmm.Setup.{PmEntry, pmm_init}
use bhos.Vmm.{Vmm}
use bhos.Vmm.Init.{kern_vmm_pool, vmm_pre_init, vmm_init}
use bhos.Threads.{threads_init, sti}
use bhos.Interrupt.{Interrupts, idt_init, keyboard_init}
use bhos.Tss.{Tss, TssDesc, tss_init}
use bhos.Sync.{Sync, lock_init, sem_init}
use bhos.Vga.{vga_init}
use bhos.Printk.Print.{Console, printk_init_lock}
use bhos.Tasks.{Machine, on_vmm, create_kern_thread}

pub record System : Type 0 where
  pub console : Console
  pub machine : Machine
  pub interrupts : Interrupts
  pub tss : Tss
  pub lock : Sync
  pub sem : Sync

-- The end of the kernel, the memory map, the addresses of the kernel's bitmap and directory, the stubs of the
-- interrupts, the instruction `ltr`, the addresses of the TSS, of `main_TCB`, of `exit` and of `func`, and
-- the selector of the data segment.
pub record BootArgs : Type 0 where
  pub kern_end : ℕ
  pub entries : List PmEntry
  pub kern_bitmap : ℕ
  pub kern_dir : ℕ
  pub isr : ℕ → ℕ
  pub ltr : TssDesc → TssDesc
  pub tss_addr : ℕ
  pub main : ℕ
  pub exit_addr : ℕ
  pub func : ℕ
  pub data_selector : ℕ

abbrev pub on_machine : {A : Type 0} → Cmd Machine A → Cmd System A
on_machine m s = elim (m s.machine) [
  | fault e ↦ fault e
  | ok r ↦ ok (r.0, record s { machine = r.1 })
]

abbrev pub on_pmm : {A : Type 0} → Cmd Pmm A → Cmd Vmm A
on_pmm m s = elim (m s.pmm) [ fault e ↦ fault e | ok r ↦ ok (r.0, record s { pmm = r.1 }) ]

abbrev pub on_memory : {A : Type 0} → Cmd Memory A → Cmd Vmm A
on_memory m s = elim (m s.memory) [ fault e ↦ fault e | ok r ↦ ok (r.0, record s { memory = r.1 }) ]

abbrev pub on_tss : {A : Type 0} → Cmd Tss A → Cmd System A
on_tss m s = elim (m s.tss) [ fault e ↦ fault e | ok r ↦ ok (r.0, record s { tss = r.1 }) ]

-- The memory: `pmm_init`, `vmm_pre_init` and `vmm_init`.
unfoldable pub init_memory : BootArgs → Cmd Vmm (Unit {0})
init_memory b =
    on_pmm (pmm_init b.kern_end b.entries)
    >> (λ s. on_memory (vmm_init b.kern_bitmap b.kern_end) (vmm_pre_init b.kern_dir s))

-- `threads_init`, `printk_init_lock`, `keyboard_init`, `sti`, `lock_init` and `sem_init`, which cannot fail.
unfoldable pub init_threads : BootArgs → System → System
init_threads b s = record s {
  machine = record s.machine { threads = sti (threads_init b.main s.machine.threads) };
  console = printk_init_lock s.console;
  interrupts = record (keyboard_init s.interrupts) { int_flag = true };
  lock = lock_init s.lock;
  sem = sem_init 2 s.sem;
}

unfoldable pub kern_entry : BootArgs → Cmd System (Unit {0})
unfolding init_memory init_threads
kern_entry b s0 =
    let shown : System = record s0 {
      console = record s0.console { screen = vga_init s0.console.screen };
    } in
    (on_machine (on_vmm (init_memory b)) >> (λ s.
        (on_tss (tss_init b.ltr b.tss_addr b.data_selector) >> (λ t.
            on_machine (create_kern_thread (kern_vmm_pool b.kern_bitmap) b.exit_addr 1 b.func 0)
              (init_threads b t)))
          (record s { interrupts = idt_init b.isr s.interrupts })))
      shown
