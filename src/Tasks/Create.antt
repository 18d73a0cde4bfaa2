-- ===== src/Tasks/Create.antt =====
-- `create_kern_thread`: a page of the kernel becomes a thread.
use bhos.Common.{
  ℕ, ◌+◌, ◌*◌, ◌/◌, ◌%◌, ◌^◌, ◌<◌, ◌≡◌, refl, ap, ◌∙◌, arith, true, false, some, List, ◌∷◌, has,
  ◌==◌, ok, fault, Fault, Returns, ◌>>=◌,
}
use bhos.Bitmap.{Bitmap}
use bhos.Bitmap.One.{IsWellPlaced, AreBytes, is_free}
use bhos.Bitmap.Scan.{Takes}
use bhos.Pmm.{Pmm, Alloc}
use bhos.Pmm.Request.{pmm_alloc_one_page}
use bhos.Threads.{Threads, create_thread, is_ready, time_cont, magic_number}
use bhos.Threads.Ring.{RingTo}
use bhos.Threads.Created.{create_thread-RingTo}
use bhos.Vmm.{Vmm, vmm_v2p, vmm_kern_alloc, kern_vmm_alloc_erro}
use bhos.Vmm.Kernel.{AreWords}
use bhos.Vmm.Lowest.{vmm_kern_alloc-Takes, vmm_kern_alloc-none}
use bhos.Tasks.{Machine, on_vmm, on_threads, stop, create_kern_thread}

pub create_run :
    (pool : Bitmap) (exit_addr tid func args page : ℕ) (s : Machine) (v : Vmm) (t : Threads)
    → vmm_kern_alloc pool s.vmm ≡ ok (page, v)
    → (page == kern_vmm_alloc_erro) ≡ false
    → create_thread exit_addr tid func args page 1 true 0 s.threads ≡ ok (tt, t)
    → create_kern_thread pool exit_addr tid func args s ≡ ok (tt, record s { vmm = v; threads = t })
unfolding create_kern_thread
create_run pool exit_addr tid func args page s v t first fine second =
    rw (create_kern_thread, ◌>>=◌, on_vmm, first, fine, on_threads, second) refl

stop_run :
    (pool : Bitmap) (exit_addr tid func args : ℕ) (s : Machine) (v : Vmm)
    → vmm_kern_alloc pool s.vmm ≡ ok (kern_vmm_alloc_erro, v)
    → create_kern_thread pool exit_addr tid func args s ≡ fault Fault.endless
unfolding create_kern_thread
stop_run pool exit_addr tid func args s v first =
    rw (create_kern_thread, ◌>>=◌, on_vmm, first, stop) refl

module _ (pool : Bitmap) (w : IsWellPlaced pool) (exit_addr tid func args : ℕ) (s : Machine)
    (bytes : AreBytes s.vmm.memory) (k : ℕ) (h : k < pool.length * 8)
    (free : is_free pool s.vmm.memory k ≡ true) (a : Alloc) (pm : Pmm)
    (given : pmm_alloc_one_page s.vmm.pmm ≡ ok (a, pm)) where
  -- With a free page in the kernel's pool, none of whose free pages holds a thread of the ring, and a
  -- physical page, `create_kern_thread` ends without a fault: the lowest free page of the pool is taken, it
  -- alone, leads to the physical page and holds a new thread of the kernel, ready and with a full time
  -- slice, right behind the current one. The other threads keep their order.
  pub create_kern_thread-RingTo :
      (c : ℕ) (xs : List ℕ)
      → AreWords s.vmm.words
      → (a.state == 0) ≡ false
      → a.addr < 2 ^ 32
      → s.threads.cur ≡ some c
      → RingTo s.threads.tcbs c c xs
      → has c xs ≡ false
      → ((n : ℕ)
          → is_free pool s.vmm.memory n ≡ true
          → has (pool.target_addr_header + n * 4096) (c ∷ xs) ≡ false)
      → Returns
          (λ _ t.
            (page : ℕ) × (t.threads.cur ≡ some c)
            × RingTo t.threads.tcbs c c (page ∷ xs)
            × (is_ready (t.threads.tcbs page).task_status ≡ true)
            × ((t.threads.tcbs page).time_left ≡ time_cont)
            × ((t.threads.tcbs page).magic ≡ magic_number)
            × ((n : ℕ) × Takes pool s.vmm.memory (page, t.vmm.memory) n)
            × (vmm_v2p t.vmm.words page ≡ a.addr / 4096 * 4096 + page % 4096))
          (create_kern_thread pool exit_addr tid func args s)
  create_kern_thread-RingTo c xs aw some_page ha cur ring out fresh =
      let (page, v, first, (taken, small, fine, leads, _)) =
        vmm_kern_alloc-Takes pool w s.vmm bytes k h free a pm given aw some_page ha in
      let (n, takes) = taken in
      let (_, untaken, _, at, _, _) = takes in
      let new : has page (c ∷ xs) ≡ false = ap (λ (p : ℕ). has p (c ∷ xs)) at ∙ fresh n untaken in
      let (_, t, second, (now, longer, waits, slice, sound, _)) =
        create_thread-RingTo exit_addr tid func args page 1 0 true s.threads c xs cur ring new
          out in
      (
        tt,
        record s { vmm = v; threads = t },
        create_run pool exit_addr tid func args page s v t first fine second,
        (page, now, longer, waits, slice, sound, taken, leads page small ∙ ground arith),
      )

  -- Without a physical page `create_kern_thread` never returns.
  pub create_kern_thread-none :
      (a.state == 0) ≡ true
      → create_kern_thread pool exit_addr tid func args s ≡ fault Fault.endless
  create_kern_thread-none no_page =
      let (r, v, first, (erro, _)) =
        vmm_kern_alloc-none pool w s.vmm bytes k h free a pm given no_page in
      stop_run pool exit_addr tid func args s v (first ∙ ap (λ (x : ℕ). ok (x, v)) erro)
