-- ===== src/Entry/Ready.antt =====
-- What the steps of `kern_entry` leave for those behind them: a page, a pool, a first thread.
use bhos.Common.{
  ℕ, zero, suc, ◌+◌, ◌-◌, ◌^◌, ◌<◌, ◌≤◌, ◌≡◌, refl, ap, ◌∙◌, arith, true, false, none, some, List,
  [], ◌∷◌, ◌==◌, ok, ◌>>=◌, ◌>>◌,
}
use bhos.Bitmap.{Memory}
use bhos.Bitmap.One.{IsWellPlaced}
use bhos.Chain.{last_of}
use bhos.Pmm.{Pmm, Alloc, page_no_to_addr}
use bhos.Pmm.Request.{pmm_alloc_one_page, one_page}
use bhos.Pmm.Request.Single.{pmm_alloc_one_page-cons}
use bhos.Pmm.Setup.{PmEntry, array_fits, pmm_init}
use bhos.Pmm.Setup.Single.{range}
use bhos.Pmm.Setup.Init.{initial, first_single}
use bhos.Pmm.Setup.Map.{page_count, pmm_init-IsInitial}
use bhos.Vmm.{Vmm}
use bhos.Vmm.Init.{kern_vmm_pool, vmm_pre_init, vmm_kern_init, vmm_init}
use bhos.Vmm.Kernel.{AreWords}
use bhos.Threads.{
  Threads, threads_init, sti, created, is_ready, is_running, magic_number, time_cont, v2p_error,
}
use bhos.Threads.Schedule.{IsCurrent}
use bhos.Threads.Created.{created-RingTo, created-cur, created-others, created-count, created-waits}
use bhos.Entry.{BootArgs, on_pmm, on_memory, init_memory}

pub range-cons : (n page : ℕ) → 0 < n → range n page ≡ page ∷ range (n - 1) (suc page)
range-cons zero page h = absurd (omega arith)
range-cons (suc n) page h = let at : suc n - 1 ≡ n = omega arith in rw at refl

pub small_addr : (t : Pmm) (n : ℕ) → (one_page t n).addr < 2 ^ 32
unfolding page_no_to_addr
small_addr t n = omega arith

-- After `pmm_init` the physical manager has a page.
pub page_ready :
    (kern_end : ℕ) (es : List PmEntry) (s : Pmm)
    → s.single ≡ none
    → 2048 < page_count kern_end es
    → array_fits (page_count kern_end es) ≡ true
    → (t : Pmm) × (a : Alloc) × (pm : Pmm) × (pmm_init kern_end es s ≡ ok (tt, t))
      × (pmm_alloc_one_page t ≡ ok (a, pm))
      × ((a.state == 0) ≡ false)
      × (a.addr < 2 ^ 32)
page_ready kern_end es s e lo fits =
    let max = page_count kern_end es in
    let (_, t, run, ((rep, _, _, _), _, _, _)) =
      pmm_init-IsInitial kern_end 0 es s e lo fits (omega arith) in
    let x = first_single max in
    let xs = range (max - first_single max - 1) (suc (first_single max)) in
    let (a, pm, got, (page, _, _)) =
      pmm_alloc_one_page-cons t (initial max) rep x xs
        (range-cons (max - first_single max) (first_single max) (omega arith)) in
    (
      t,
      a,
      pm,
      run,
      got,
      ap (λ (q : Alloc). q.state == 0) page,
      rw page (small_addr t (last_of x xs)),
    )

-- The memory that `init_memory` leaves: the kernel's pool has a free page behind the kernel's own.
pub memory_run :
    (b : BootArgs) (s : Vmm) (pm : Pmm) (m : Memory)
    → pmm_init b.kern_end b.entries s.pmm ≡ ok (tt, pm)
    → vmm_kern_init b.kern_bitmap b.kern_end s.memory ≡ ok (tt, m)
    → init_memory b s
      ≡ ok (tt, record (vmm_pre_init b.kern_dir (record s { pmm = pm })) { memory = m })
unfolding init_memory vmm_pre_init
memory_run b s pm m first second =
    rw (init_memory, ◌>>◌, ◌>>=◌, on_pmm, first, on_memory, vmm_init, second) refl

pub words_kept :
    (kern_dir : ℕ) (s : Vmm) → AreWords s.words → AreWords (vmm_pre_init kern_dir s).words
unfolding vmm_pre_init
words_kept kern_dir s aw a = ground (arith, aw a)

pub pool-IsWellPlaced :
    (kern_bitmap : ℕ) → kern_bitmap + 0x8000 ≤ 2 ^ 32 → IsWellPlaced (kern_vmm_pool kern_bitmap)
pool-IsWellPlaced kern_bitmap h = record {
  nonempty = omega arith;
  aligned = omega arith;
  pages = omega arith;
  bytes = h;
}

-- The thread of `kern_entry`, alone in the ring.
pub main_thread :
    (main : ℕ) (s : Threads)
    → let t = sti (threads_init main s) in
      (t.cur ≡ some main)
      × ((t.tcbs main).next ≡ main)
      × (is_ready (t.tcbs main).task_status ≡ false)
      × ((t.tcbs main).magic ≡ magic_number)
      × (t.count ≡ 1)
      × ((t.tcbs main).time_left ≡ time_cont)
unfolding threads_init
main_thread main s = (refl, ground arith, ground arith, ground arith, refl, ground arith)

-- With a second thread the scheduler finds what it needs.
pub created-IsCurrent :
    (v2p : ℕ → ℕ) (exit_addr func main page : ℕ) (s : Threads)
    → ((a : ℕ) → (v2p a == v2p_error) ≡ false)
    → (page == main) ≡ false
    → IsCurrent v2p
        (created exit_addr 1 func 0 page 1 true 0 main (sti (threads_init main s)))
        main
        (page ∷ [])
created-IsCurrent v2p exit_addr func main page s maps ne =
    let t : Threads = sti (threads_init main s) in
    let u : Threads = created exit_addr 1 func 0 page 1 true 0 main t in
    let (cur, next, not_ready, magic, count, _) = main_thread main s in
    let others = created-others exit_addr 1 func 0 page 1 0 true t main main ne in
    let more = created-count exit_addr 1 func 0 page 1 0 true t main in
    let waits = created-waits exit_addr 1 func 0 page 1 0 true t main ne in
    record {
      cur = created-cur exit_addr 1 func 0 page 1 0 true t main ∙ cur;
      ring = created-RingTo exit_addr 1 func 0 page 1 0 true t main [] next (ground arith) refl;
      alone = ground arith;
      idle = λ a m.
          let same : a ≡ page = ground arith in
          ap (λ (x : ℕ). is_running (u.tcbs x).task_status) same ∙ waits;
      not_ready = others.0 ∙ not_ready;
      sound = others.1 ∙ magic;
      mapped = λ a. maps (u.tcbs a).pdt_vaddr;
      counted = omega (arith, more.0, count);
    }
