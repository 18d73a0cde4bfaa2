-- ===== src/Interrupt/Timer.antt =====
-- The timer drives the scheduler: interrupt 32 after `idt_init`.
use bhos.Common.{
  ℕ, zero, suc, ◌+◌, ◌-◌, ◌≡◌, refl, ap, ◌∙◌, arith, true, false, Option, none, some, List, [], ◌∷◌,
  ◌==◌, if◌then◌else◌, u32, ok, fault, Fault, Cmd, pure, ◌>>=◌, ◌>>◌, Returns,
}
use bhos.Threads.{Threads, timer_server_func, schedule, put}
use bhos.Threads.Ring.{RingTo-frame, first_ready}
use bhos.Threads.Schedule.{IsCurrent, IsDispatched, chosen, schedule-IsDispatched}
use bhos.Interrupt.{Interrupts, timer, idt_init, int_func_route}
use bhos.Interrupt.Tables.{idt_init-servers}

module _ (v2p : ℕ → ℕ) (kern_dir : ℕ) where
  -- `k` interrupts of number 32, one after the other.
  abbrev pub ticks : Interrupts → ℕ → Cmd Threads (Unit {0})
  ticks ints zero = pure tt
  ticks ints (suc k) = int_func_route v2p kern_dir ints 32 >> ticks ints k

  -- After a tick with time left the current thread has used one unit of it.
  abbrev pub ticked : ℕ → Threads → Threads
  ticked c s =
      let t = s.tcbs c in
      put c (record t { time_left = t.time_left - 1; time_counter = u32 (t.time_counter + 1) }) s

  tick-some :
      (s : Threads) (c : ℕ)
      → s.cur ≡ some c
      → ((s.tcbs c).time_left == 0) ≡ false
      → timer_server_func v2p kern_dir s ≡ ok (tt, ticked c s)
  unfolding timer_server_func
  tick-some s c cur left =
      (λ j. elim (cur j) [
        | none ↦ fault Fault.null_pointer
        | some k ↦
            if (s.tcbs k).time_left == 0 then schedule v2p kern_dir s else ok (tt, ticked k s)
      ])
      ∙ rw left refl

  tick-zero :
      (s : Threads) (c : ℕ)
      → s.cur ≡ some c
      → ((s.tcbs c).time_left == 0) ≡ true
      → timer_server_func v2p kern_dir s ≡ schedule v2p kern_dir s
  unfolding timer_server_func
  tick-zero s c cur over =
      (λ j. elim (cur j) [
        | none ↦ fault Fault.null_pointer
        | some k ↦
            if (s.tcbs k).time_left == 0 then schedule v2p kern_dir s else ok (tt, ticked k s)
      ])
      ∙ rw over refl

  route-timer :
      (ints : Interrupts) (s : Threads)
      → ints.int_server_func_list 32 ≡ some timer
      → int_func_route v2p kern_dir ints 32 s ≡ timer_server_func v2p kern_dir s
  unfolding int_func_route
  route-timer ints s e = rw (int_func_route, e) refl

  ticked-IsCurrent :
      (s : Threads) (c : ℕ) (xs : List ℕ) → IsCurrent v2p s c xs → IsCurrent v2p (ticked c s) c xs
  ticked-IsCurrent s c xs i = record {
    cur = i.cur;
    ring = RingTo-frame s.tcbs (ticked c s).tcbs c c xs i.ring (λ b. ground arith);
    alone = i.alone;
    idle = λ a m. ground (arith, i.idle a);
    not_ready = ground (arith, i.not_ready);
    sound = ground (arith, i.sound);
    mapped = λ a. ground (arith, i.mapped a);
    counted = i.counted;
  }

  first_ready-ticked :
      (s : Threads) (c : ℕ) (xs : List ℕ) → first_ready (ticked c s).tcbs xs ≡ first_ready s.tcbs xs
  unfolding first_ready
  first_ready-ticked s c [] = refl
  first_ready-ticked s c (x ∷ xs) = ground (arith, first_ready-ticked s c xs)

  -- The dispatch after a tick is one before it: the ring has the same links.
  IsDispatched-ticked :
      (s t : Threads) (c : ℕ) (xs : List ℕ) (p q : ℕ)
      → p ≡ q
      → IsDispatched (ticked c s) t c xs p
      → IsDispatched s t c xs q
  IsDispatched-ticked s t c xs p q e d0 =
      let d : IsDispatched (ticked c s) t c xs q = rw e at d0 in
      record {
        cur = d.cur;
        member = d.member;
        status = d.status;
        slice = d.slice;
        others = d.others;
        ring = λ b. d.ring b ∙ ground arith;
      }

  pub ticks-run :
      (ints : Interrupts) (n : ℕ) (s : Threads) (c : ℕ) (xs : List ℕ)
      → ints.int_server_func_list 32 ≡ some timer
      → IsCurrent v2p s c xs
      → (s.tcbs c).time_left ≡ n
      → Returns (λ _ t. IsDispatched s t c xs (chosen s c xs)) (ticks ints (suc n) s)
  ticks-run ints zero s c xs table i left =
      let (_, t, run, post) = schedule-IsDispatched v2p kern_dir s c xs i in
      let over : ((s.tcbs c).time_left == 0) ≡ true = ground arith in
      (
        tt,
        t,
        rw (◌>>◌, ◌>>=◌, route-timer ints s table, tick-zero s c i.cur over, run) refl,
        post.0,
      )
  ticks-run ints (suc n) s c xs table i left =
      let more : ((s.tcbs c).time_left == 0) ≡ false = ground arith in
      let (_, t, run, post) =
        ticks-run ints n (ticked c s) c xs table (ticked-IsCurrent s c xs i) (ground arith) in
      let same : chosen (ticked c s) c xs ≡ chosen s c xs =
        ap (λ (o : Option ℕ). elim o [ none ↦ c | some p ↦ p ]) (first_ready-ticked s c xs) in
      (
        tt,
        t,
        rw (◌>>◌, ◌>>=◌, route-timer ints s table, tick-some s c i.cur more) run,
        IsDispatched-ticked s t c xs (chosen (ticked c s) c xs) (chosen s c xs) same post,
      )

  -- Once `idt_init` has run, a thread gives way to the others when its time is up: for a well-formed ring
  -- whose current thread has `n` units left, after `n + 1` timer interrupts in a row the first ready
  -- thread behind it, or the thread itself if none is ready, is current and alone running, with a full
  -- time slice, and the ring is as before. The interrupts end without a fault.
  pub ticks-IsDispatched :
      (isr : ℕ → ℕ) (ints : Interrupts) (n : ℕ) (s : Threads) (c : ℕ) (xs : List ℕ)
      → IsCurrent v2p s c xs
      → (s.tcbs c).time_left ≡ n
      → Returns (λ _ t. IsDispatched s t c xs (chosen s c xs)) (ticks (idt_init isr ints) (suc n) s)
  ticks-IsDispatched isr ints n s c xs i left =
      ticks-run (idt_init isr ints) n s c xs (idt_init-servers isr ints 32) i left
