-- ===== src/Tasks/Start.antt =====
-- `start_user_task` gives a task its two pages and builds its interrupt stack.
use bhos.Common.{
  ℕ, ◌+◌, ◌*◌, ◌/◌, ◌%◌, ◌^◌, ◌<◌, ◌≤◌, ◌≡◌, refl, ap, ◌∙◌, arith, true, false, Option, none, some,
  Outcome, ◌==◌, if◌then◌else◌, update, bit_and_low, ok, fault, Fault, Returns, ◌>>=◌,
}
use bhos.Bitmap.{Bitmap}
use bhos.Bitmap.One.{IsWellPlaced, AreBytes, is_free, manages, number_of, Allocates}
use bhos.Pmm.{Pmm, Alloc}
use bhos.Pmm.Request.{pmm_alloc_one_page}
use bhos.Threads.{cli, sti}
use bhos.Vmm.{Vmm, vmm_v2p, get_pte, user_get_pde}
use bhos.Vmm.Address.{get_pte_lem}
use bhos.Vmm.Kernel.{AreWords, vmm_v2p-update}
use bhos.Vmm.User.{
  UserTask, user_descriptor, user_vmm_alloc_erro, vmm_user_alloc_one_page, shows_directory,
}
use bhos.Vmm.User.Pages.{user_descriptor_lem, free_shows, vmm_user_alloc_one_page-words}
use bhos.Tasks.{
  Machine, StartUserTaskParams, InterruptStack, on_vmm, stop, task_of, alloc_user_page,
  level3_stack, task_page, start_function, start_user_task,
}

-- The page of the arguments and that of the stack.
abbrev pub args_page : ℕ
args_page = 0xBFFF_F000

abbrev pub stack_page : ℕ
stack_page = 0xBFFF_E000

-- A user task with a pool of all pages below 3 GB, of which its last two are free, and with a page table
-- for them.
pub record IsStartable (task : UserTask) (s : Vmm) : Type 0 where
  pub user : task.is_kern_thread ≡ false
  pub placed : IsWellPlaced task.user_vmm_pool
  pub start : task.user_vmm_pool.target_addr_header ≡ 0
  pub whole : task.user_vmm_pool.length ≡ 0x1_8000
  pub bytes : AreBytes s.memory
  pub args_free : is_free task.user_vmm_pool s.memory 0xB_FFFF ≡ true
  pub stack_free : is_free task.user_vmm_pool s.memory 0xB_FFFE ≡ true
  pub words : AreWords s.words
  pub table : s.words (user_get_pde task.pdt_vaddr args_page) % 2 ≡ 1
  pub in_front : task.pdt_vaddr + 0x1000 ≤ 0xFFC0_0000

same_table : (pdt : ℕ) → user_get_pde pdt stack_page ≡ user_get_pde pdt args_page
unfolding user_get_pde
same_table pdt = refl

table_beside :
    (pdt : ℕ)
    → pdt + 0x1000 ≤ 0xFFC0_0000
    → (get_pte args_page == user_get_pde pdt args_page) ≡ false
unfolding user_get_pde
table_beside pdt h = ground (arith, get_pte_lem args_page (omega arith))

module _ (pool : Bitmap) (task : UserTask) (s : Vmm) (i : IsStartable task s) where
  -- An address below 3 GB.
  managed : (v : ℕ) → v < 0xC000_0000 → manages task.user_vmm_pool v ≡ true
  managed v h = ground (arith, i.start, i.whole)

  numbered : (v : ℕ) → number_of task.user_vmm_pool v ≡ v / 4096
  numbered v = omega (arith, i.start)

  table_kept :
      (words : ℕ → ℕ) (word : ℕ)
      → words ≡ update s.words (get_pte args_page) word
      → words (user_get_pde task.pdt_vaddr stack_page) % 2 ≡ 1
  table_kept words word e =
      let beside = table_beside task.pdt_vaddr i.in_front in
      rw (e, same_table task.pdt_vaddr, beside) i.table

  still_free :
      (r : ℕ) (m : ℕ → ℕ)
      → Allocates task.user_vmm_pool args_page s.memory (r, m)
      → is_free task.user_vmm_pool m (number_of task.user_vmm_pool stack_page) ≡ true
  still_free r m (_, _, after) =
      let other = after 0xB_FFFE (omega (arith, i.whole)) in
      rw (numbered stack_page) (other ∙ rw (numbered args_page) i.stack_free)

  two_pages :
      (a b : Alloc) (pm pm' : Pmm)
      → pmm_alloc_one_page s.pmm ≡ ok (a, pm)
      → pmm_alloc_one_page pm ≡ ok (b, pm')
      → (a.state == 0) ≡ false
      → (b.state == 0) ≡ false
      → (t : Vmm) × (u : Vmm) × (vmm_user_alloc_one_page pool task args_page s ≡ ok (args_page, t))
        × (vmm_user_alloc_one_page pool task stack_page t ≡ ok (stack_page, u))
        × (shows_directory task args_page s ≡ true)
        × (shows_directory task stack_page t ≡ true)
        × (u.words
            ≡ update
                (update s.words (get_pte args_page) (user_descriptor a.addr))
                (get_pte stack_page)
                (user_descriptor b.addr))
  two_pages a b pm pm' given later some_page more =
      let (r, t, first, (at, words, taken, left)) =
        vmm_user_alloc_one_page-words pool task i.placed args_page s i.user i.bytes (omega arith)
          (managed args_page (omega arith)) (rw (numbered args_page) i.args_free) i.table a pm given
          some_page in
      let (q, u, second, (there, words', _, _)) =
        vmm_user_alloc_one_page-words pool task i.placed stack_page t i.user taken.1 (omega arith)
          (managed stack_page (omega arith)) (still_free r t.memory taken)
          (table_kept t.words (user_descriptor a.addr) words) b pm'
          (ap (λ (p : Pmm). pmm_alloc_one_page p) left ∙ later) more in
      (
        t,
        u,
        first ∙ ap (λ (p : ℕ). ok (p, t)) at,
        second ∙ ap (λ (p : ℕ). ok (p, u)) there,
        free_shows pool task i.placed args_page s i.user i.bytes (omega arith)
            (managed args_page (omega arith)) (rw (numbered args_page) i.args_free) i.table,
        free_shows pool task i.placed stack_page t i.user taken.1 (omega arith)
            (managed stack_page (omega arith)) (still_free r t.memory taken)
            (table_kept t.words (user_descriptor a.addr) words),
        words' ∙ ap (λ (f : ℕ → ℕ). update f (get_pte stack_page) (user_descriptor b.addr)) words,
      )

  -- Where the addresses lead when both pages are mapped.
  leads :
      (a b : Alloc) (v : ℕ)
      → v < 2 ^ 32
      → a.addr < 2 ^ 32
      → b.addr < 2 ^ 32
      → vmm_v2p
          (update
            (update s.words (get_pte args_page) (user_descriptor a.addr))
            (get_pte stack_page)
            (user_descriptor b.addr))
          v
        ≡ (if v / 4096 == 0xB_FFFE
            then b.addr / 4096 * 4096 + v % 4096
            else if v / 4096 == 0xB_FFFF
            then a.addr / 4096 * 4096 + v % 4096
            else vmm_v2p s.words v)
  leads a b v hv ha hb =
      let one = user_descriptor_lem a.addr ha in
      let two = user_descriptor_lem b.addr hb in
      let inner : AreWords (update s.words (get_pte args_page) (user_descriptor a.addr)) =
        λ o. ground (arith, i.words o, one, ha) in
      vmm_v2p-update (update s.words (get_pte args_page) (user_descriptor a.addr)) stack_page
        (user_descriptor b.addr) v inner (omega arith) hv (omega (arith, two))
      ∙ rw
          (
            two,
            vmm_v2p-update s.words args_page (user_descriptor a.addr) v i.words (omega arith) hv
                (omega (arith, one)),
            one,
          )
          (ground arith)

request_run :
    (pool : Bitmap) (cur vaddr page : ℕ) (s : Machine) (v : Vmm)
    → vmm_user_alloc_one_page pool (task_of s cur) vaddr s.vmm ≡ ok (page, v)
    → shows_directory (task_of s cur) vaddr s.vmm ≡ true
    → alloc_user_page pool cur vaddr s
      ≡ ok (page, record s { vmm = v; threads = sti (cli s.threads) })
unfolding alloc_user_page
request_run pool cur vaddr page s v run shows =
    (λ j.
      on_vmm (vmm_user_alloc_one_page pool (task_of s cur) vaddr)
        (record s { threads = if shows j then sti (cli s.threads) else s.threads }))
    ∙ rw (on_vmm, run) refl

page_run :
    (pool : Bitmap) (cur vaddr page : ℕ) (s : Machine) (v : Vmm)
    → vmm_user_alloc_one_page pool (task_of s cur) vaddr s.vmm ≡ ok (page, v)
    → shows_directory (task_of s cur) vaddr s.vmm ≡ true
    → (page == user_vmm_alloc_erro) ≡ false
    → task_page pool cur vaddr s ≡ ok (page, record s { vmm = v; threads = sti (cli s.threads) })
unfolding task_page
page_run pool cur vaddr page s v run shows fine =
    rw (task_page, ◌>>=◌, request_run pool cur vaddr page s v run shows, fine) refl

guards :
    (pool : Bitmap) (user_code user_data cur : ℕ) (params : StartUserTaskParams) (s : Machine)
    → params.is_from_file ≡ false
    → (params.function == 0) ≡ false
    → s.threads.cur ≡ some cur
    → start_user_task pool user_code user_data params s
      ≡ start_function pool user_code user_data params.function cur s
unfolding start_user_task
guards pool user_code user_data cur params s from given at =
    let go : Option ℕ → Outcome (InterruptStack × Machine) = λ o. elim o [
      | none ↦ fault Fault.null_pointer
      | some c ↦ start_function pool user_code user_data params.function c s
    ] in
    (λ j. if from j then stop s else if params.function == 0 then stop s else go s.threads.cur)
    ∙ (λ j. if given j then stop s else go s.threads.cur)
    ∙ ap go at

function_run :
    (pool : Bitmap) (user_code user_data function cur : ℕ) (s : Machine) (t u : Machine)
    → task_page pool cur args_page s ≡ ok (args_page, t)
    → task_page pool cur stack_page t ≡ ok (stack_page, u)
    → start_function pool user_code user_data function cur s
      ≡ ok (level3_stack user_code user_data function stack_page, u)
unfolding start_function
function_run pool user_code user_data function cur s t u first second =
    rw (start_function, ◌>>=◌, first, second) refl

module _ (pool : Bitmap) (user_code user_data cur : ℕ) (params : StartUserTaskParams) (s : Machine)
    (i : IsStartable (task_of s cur) s.vmm) where
  -- `start_user_task` of a function, for a current user task with its last two pages free and a page table
  -- for them, when the physical manager has two pages: it ends with an interrupt stack that goes on at the
  -- function with interrupts enabled, in the given segments, with the stack pointer at the end of the
  -- stack's page. The two pages below 3 GB lead to the two physical pages, all other
  -- addresses as before. Nothing of the threads changes but that the interrupts are open, which they are
  -- behind the text that each of the two requests prints; the printing itself is left out.
  pub start_user_task-level3_stack :
      (a b : Alloc) (pm pm' : Pmm)
      → params.is_from_file ≡ false
      → (params.function == 0) ≡ false
      → s.threads.cur ≡ some cur
      → pmm_alloc_one_page s.vmm.pmm ≡ ok (a, pm)
      → pmm_alloc_one_page pm ≡ ok (b, pm')
      → (a.state == 0) ≡ false
      → (b.state == 0) ≡ false
      → a.addr < 2 ^ 32
      → b.addr < 2 ^ 32
      → Returns
          (λ stack t.
            (stack.eip ≡ params.function)
            × (stack.cs ≡ user_code % 2 ^ 16)
            × (stack.eflags ≡ 0x202)
            × (stack.esp ≡ stack_page + 4096)
            × (stack.ss ≡ user_data % 2 ^ 16)
            × ((v : ℕ)
                → v < 2 ^ 32
                → vmm_v2p t.vmm.words v ≡ (
                    if v / 4096 == 0xB_FFFE
                    then b.addr / 4096 * 4096 + v % 4096
                    else if v / 4096 == 0xB_FFFF
                    then a.addr / 4096 * 4096 + v % 4096
                    else vmm_v2p s.vmm.words v))
            × (t.threads ≡ record s.threads { int_flag = true }))
          (start_user_task pool user_code user_data params s)
  start_user_task-level3_stack a b pm pm' from given at one two some_page more ha hb =
      let (t, u, first, second, shows, shows', words) =
        two_pages pool (task_of s cur) s.vmm i a b pm pm' one two some_page more in
      let open_threads = sti (cli s.threads) in
      let middle : Machine = record s { vmm = t; threads = open_threads } in
      (
        level3_stack user_code user_data params.function stack_page,
        record s { vmm = u; threads = open_threads },
        guards pool user_code user_data cur params s from given at
            ∙ function_run pool user_code user_data params.function cur s middle
                (record s { vmm = u; threads = open_threads })
                (page_run pool cur args_page args_page s t first shows refl)
                (page_run pool cur stack_page stack_page middle u second shows' refl),
        (
          refl,
          bit_and_low 16 user_code,
          refl,
          refl,
          bit_and_low 16 user_data,
          (λ v hv.
              ap (λ (f : ℕ → ℕ). vmm_v2p f v) words
              ∙ leads pool (task_of s cur) s.vmm i a b v hv ha hb),
          refl,
        ),
      )
