-- ===== src/Entry/Boot.antt =====
-- The state that `kern_entry` leaves is one in which the scheduler, the locks and the printing functions work.
use bhos.Common.{
  sym, ◌≢◌, some, ℕ, ◌+◌, ◌-◌, ◌%◌, ◌^◌, ◌<◌, ◌≤◌, ◌≡◌, refl, ap, ◌∙◌, arith, true, false, none, [],
  ◌∷◌, ◌==◌, update, bit_and, ok, Returns, ◌>>=◌, ◌>>◌,
}
use bhos.Bitmap.One.{AreBytes, is_free}
use bhos.Pmm.{Pmm, Alloc}
use bhos.Pmm.Request.{pmm_alloc_one_page}
use bhos.Pmm.Setup.{array_fits}
use bhos.Pmm.Setup.Map.{page_count}
use bhos.Vmm.{Vmm, vmm_kern_alloc}
use bhos.Vmm.Init.{kern_vmm_pool, get_kern_used_page_count, vmm_pre_init}
use bhos.Vmm.Init.Pool.{vmm_kern_init-pool}
use bhos.Vmm.Kernel.{AreWords}
use bhos.Vmm.Lowest.{vmm_kern_alloc-Takes}
use bhos.Threads.{
  is_running, time_cont, Threads, threads_init, sti, created, create_thread, is_ready, v2p_error,
}
use bhos.Threads.Schedule.{IsCurrent, chosen}
use bhos.Threads.Ring.{RingTo, first_ready}
use bhos.Threads.Created.{created-others, create_thread-some, created-fields, created-count}
use bhos.Tss.{
  Tss, TssDesc, create_tss_desc, tss_init, tss_size, tss_attr_low, tss_attr_high, desc_high_word,
  tss_cpu0_desc_pos_on_gdt,
}
use bhos.Interrupt.{Interrupts, timer, idt_init, keyboard_init, register_interrupt}
use bhos.Interrupt.Tables.{idt_init-servers}
use bhos.Interrupt.Timer.{ticks, ticks-run}
use bhos.Vga.{vga_init}
use bhos.Sync.{Sync, lock_init, sem_init, sync_tool_sem_init_queue}
use bhos.Printk.Print.{printk_init_lock}
use bhos.Tasks.{Machine, create_kern_thread, on_vmm}
use bhos.Tasks.Create.{create_run}
use bhos.Entry.{System, BootArgs, on_machine, on_tss, init_memory, init_threads, kern_entry}
use bhos.Entry.Ready.{
  page_ready, memory_run, words_kept, pool-IsWellPlaced, main_thread, created-IsCurrent,
}

-- The segment descriptor of the task state segment that the processor loads.
abbrev pub boot_desc : BootArgs → TssDesc
boot_desc b = create_tss_desc b.tss_addr (tss_size - 1) tss_attr_low tss_attr_high

tss_run :
    (b : BootArgs) (s : Tss)
    → (desc_high_word (b.ltr (boot_desc b)) == desc_high_word (boot_desc b)) ≡ false
    → (t : Tss) × (tss_init b.ltr b.tss_addr b.data_selector s ≡ ok (tt, t))
unfolding tss_init
tss_run b s busy = (
  record {
    esp0 = 0;
    ss0 = bit_and b.data_selector 0xFFFF;
    io_base = tss_size;
    gdt = update s.gdt tss_cpu0_desc_pos_on_gdt (b.ltr (boot_desc b));
  },
  rw (tss_init, busy) refl,
)

-- The keyboard does not take the timer's place.
keyboard_timer :
    (s : Interrupts) → (keyboard_init s).int_server_func_list 32 ≡ s.int_server_func_list 32
unfolding register_interrupt
keyboard_timer s = refl

-- Nobody holds the lock or waits for it, and its value is 1.
abbrev pub IsIdle : Sync → Type 0
IsIdle l = (l.holder ≡ none) × (l.val ≡ 1) × (l.wait_queue.head ≡ none)

-- The machine when `create_kern_thread` has a page.
thread_run :
    (b : BootArgs) (v2p : ℕ → ℕ) (m : Machine) (v : Vmm) (a : Alloc) (pm : Pmm) (s : Threads)
    → m.vmm ≡ v
    → m.threads ≡ sti (threads_init b.main s)
    → b.kern_bitmap + 0x8000 ≤ 2 ^ 32
    → AreBytes v.memory
    → AreWords v.words
    → (k : ℕ) → k < 0x4_0000
    → is_free (kern_vmm_pool b.kern_bitmap) v.memory k ≡ true
    → pmm_alloc_one_page v.pmm ≡ ok (a, pm)
    → (a.state == 0) ≡ false
    → a.addr < 2 ^ 32
    → (b.main % 4096 == 0) ≡ false
    → ((x : ℕ) → (v2p x == v2p_error) ≡ false)
    → Returns
        (λ _ t.
          (page : ℕ) × IsCurrent v2p t.threads b.main (page ∷ [])
          × (is_ready (t.threads.tcbs page).task_status ≡ true)
          × (t.threads.int_flag ≡ true)
          × ((t.threads.tcbs b.main).time_left ≡ time_cont))
        (create_kern_thread (kern_vmm_pool b.kern_bitmap) b.exit_addr 1 b.func 0 m)
thread_run b v2p m v a pm s ev et placed bytes aw k small free given some_page ha odd maps =
    let pool = kern_vmm_pool b.kern_bitmap in
    let (page, u, first, ((n, takes), _, fine, _, _)) =
      vmm_kern_alloc-Takes pool (pool-IsWellPlaced b.kern_bitmap placed) v bytes k small free a pm
        given aw some_page ha in
    let (_, _, _, at, _, _) = takes in
    let apart : (page == b.main) ≡ false = ground (arith, at, odd) in
    let t : Threads = sti (threads_init b.main s) in
    let made : Threads = created b.exit_addr 1 b.func 0 page 1 true 0 b.main t in
    let fields = created-fields b.exit_addr 1 b.func 0 page 1 0 true t b.main apart in
    (
      tt,
      record m { vmm = u; threads = made },
      create_run pool b.exit_addr 1 b.func 0 page m u made
          (ap (λ (x : Vmm). vmm_kern_alloc pool x) ev ∙ first) fine
          (ap (λ (x : Threads). create_thread b.exit_addr 1 b.func 0 page 1 true 0 x) et
            ∙ create_thread-some b.exit_addr 1 b.func 0 page 1 0 true t b.main
                (main_thread b.main s).0),
      (
        page,
        created-IsCurrent v2p b.exit_addr b.func b.main page s maps apart,
        fields.0,
        (created-count b.exit_addr 1 b.func 0 page 1 0 true t b.main).1,
        (created-others b.exit_addr 1 b.func 0 page 1 0 true t b.main b.main apart).2
            ∙ (main_thread b.main s).5,
      ),
    )

-- The steps of `kern_entry`, one after the other.
entry_run :
    (b : BootArgs) (s : System) (v : Vmm) (t : Tss) (m : Machine)
    → init_memory b s.machine.vmm ≡ ok (tt, v)
    → tss_init b.ltr b.tss_addr b.data_selector s.tss ≡ ok (tt, t)
    → let u : System = record s {
      console = record s.console { screen = vga_init s.console.screen };
      machine = record s.machine { vmm = v };
      interrupts = idt_init b.isr s.interrupts;
      tss = t;
    } in
      create_kern_thread
          (kern_vmm_pool b.kern_bitmap)
          b.exit_addr
          1
          b.func
          0
          (init_threads b u).machine
        ≡ ok (tt, m)
      → kern_entry b s ≡ ok (tt, record (init_threads b u) { machine = m })
unfolding kern_entry init_threads
entry_run b s v t m first second third =
    rw (kern_entry, ◌>>◌, ◌>>=◌, on_machine, on_vmm, first, on_tss, second, third) refl

chosen_only :
    (s : Threads) (c p : ℕ) → is_ready (s.tcbs p).task_status ≡ true → chosen s c (p ∷ []) ≡ p
unfolding first_ready
chosen_only s c p e = rw (chosen, first_ready, e) refl

-- After `kern_entry`, on a machine with an empty buffer of pages, more than 2048 pages behind the kernel, but
-- not more than the array of pages has room for in front of the video memory, a
-- kernel of at most 1024 pages, its bitmap inside the address space, `main_TCB` at no page's first address,
-- and a processor that marks the descriptor of the task state segment: the call ends without a fault; the
-- thread of the call runs and the new one, in a page of the kernel, is ready and alone behind it, so that
-- the scheduler finds what it needs when every address translates; its time slice is full; interrupts are
-- enabled, the timer is registered, the lock of `printk` is set up, used from now on, and free with value 1 and an empty queue, as is the other lock, and
-- the semaphore has the value 2.
pub kern_entry-IsCurrent :
    (b : BootArgs) (v2p : ℕ → ℕ) (s : System)
    → s.machine.vmm.pmm.single ≡ none
    → AreBytes s.machine.vmm.memory
    → AreWords s.machine.vmm.words
    → 2048 < page_count b.kern_end b.entries
    → array_fits (page_count b.kern_end b.entries) ≡ true
    → get_kern_used_page_count b.kern_end ≤ 1024
    → b.kern_bitmap + 0x8000 ≤ 2 ^ 32
    → (b.main % 4096 == 0) ≡ false
    → (desc_high_word (b.ltr (boot_desc b)) == desc_high_word (boot_desc b)) ≡ false
    → ((x : ℕ) → (v2p x == v2p_error) ≡ false)
    → Returns
        (λ _ t.
          ((page : ℕ) × IsCurrent v2p t.machine.threads b.main (page ∷ [])
            × (is_ready (t.machine.threads.tcbs page).task_status ≡ true)
            × (t.machine.threads.int_flag ≡ true)
            × ((t.machine.threads.tcbs b.main).time_left ≡ time_cont))
          × (t.console.printk_lock_init_flag ≡ true)
          × IsIdle t.console.printk_lock
          × IsIdle t.lock
          × (t.sem.val ≡ 2)
          × (t.interrupts.int_flag ≡ true)
          × (t.interrupts.int_server_func_list 32 ≡ some timer))
        (kern_entry b s)
unfolding init_threads vmm_pre_init printk_init_lock lock_init sem_init sync_tool_sem_init_queue
kern_entry-IsCurrent b v2p s e bytes aw lo fits few placed odd busy maps =
    let (pmm, a, pm, run_pmm, given, some_page, ha) =
      page_ready b.kern_end b.entries s.machine.vmm.pmm e lo fits in
    let (_, memory, run_memory, (bytes', pages)) =
      vmm_kern_init-pool b.kern_bitmap b.kern_end s.machine.vmm.memory placed bytes few in
    let before : Vmm = record s.machine.vmm { pmm = pmm } in
    let v : Vmm = record (vmm_pre_init b.kern_dir before) { memory = memory } in
    let (tss, run_tss) = tss_run b s.tss busy in
    let u : System = record s {
      console = record s.console { screen = vga_init s.console.screen };
      machine = record s.machine { vmm = v };
      interrupts = idt_init b.isr s.interrupts;
      tss = tss;
    } in
    let used = get_kern_used_page_count b.kern_end in
    let (_, made, run_thread, post) =
      thread_run b v2p (init_threads b u).machine v a pm s.machine.threads refl refl placed bytes'
        (words_kept b.kern_dir before aw) used (omega (arith, few))
        (pages used (omega (arith, few)) ∙ ground (arith, few)) given some_page ha odd maps in
    (
      tt,
      record (init_threads b u) { machine = made },
      entry_run b s v tss made (memory_run b s.machine.vmm pmm memory run_pmm run_memory) run_tss
          run_thread,
      (
        post,
        refl,
        (refl, refl, refl),
        (refl, refl, refl),
        refl,
        refl,
        keyboard_timer (idt_init b.isr s.interrupts) ∙ idt_init-servers b.isr s.interrupts 32,
      ),
    )

-- After `kern_entry`, on a machine with an empty buffer of pages, more than 2048 pages behind the kernel, but
-- not more than the array of pages has room for in front of the video memory, a
-- kernel of at most 1024 pages, its bitmap inside the address space, `main_TCB` at no page's first address,
-- a processor that marks the descriptor of the task state segment, and addresses that all translate,
-- eleven timer interrupts in a row end without a fault, and then the thread that it created, alone in the
-- ring with the first one, is the current one and runs.
pub kern_entry-ticks :
    (b : BootArgs) (v2p : ℕ → ℕ) (kern_dir : ℕ) (s : System)
    → s.machine.vmm.pmm.single ≡ none
    → AreBytes s.machine.vmm.memory
    → AreWords s.machine.vmm.words
    → 2048 < page_count b.kern_end b.entries
    → array_fits (page_count b.kern_end b.entries) ≡ true
    → get_kern_used_page_count b.kern_end ≤ 1024
    → b.kern_bitmap + 0x8000 ≤ 2 ^ 32
    → (b.main % 4096 == 0) ≡ false
    → (desc_high_word (b.ltr (boot_desc b)) == desc_high_word (boot_desc b)) ≡ false
    → ((x : ℕ) → (v2p x == v2p_error) ≡ false)
    → Returns
        (λ _ t.
          (page : ℕ) × (page ≢ b.main)
          × RingTo t.machine.threads.tcbs b.main b.main (page ∷ [])
          × Returns
              (λ _ u. (u.cur ≡ some page) × (is_running (u.tcbs page).task_status ≡ true))
              (ticks v2p kern_dir t.interrupts 11 t.machine.threads))
        (kern_entry b s)
kern_entry-ticks b v2p kern_dir s e bytes aw lo fits few placed odd busy maps =
    let (_, t, run, ((page, i, waits, _, slice), _, _, _, _, _, table)) =
      kern_entry-IsCurrent b v2p s e bytes aw lo fits few placed odd busy maps in
    let (_, u, ticked, d) =
      ticks-run v2p kern_dir t.interrupts 10 t.machine.threads b.main (page ∷ []) table i slice in
    let next = chosen_only t.machine.threads b.main page waits in
    (
      tt,
      t,
      run,
      (
        page,
        (λ same. ground (arith, i.alone, same)),
        i.ring,
        (
          tt,
          u,
          ticked,
          (
            d.cur ∙ ap some next,
            ap (λ (p : ℕ). is_running (u.tcbs p).task_status) (sym next) ∙ d.status,
          ),
        ),
      ),
    )
