-- ===== src/Vmm/User/Pages.antt =====
-- `vmm_user_alloc_one_page` for pages of the task, and for an address of the kernel.
use bhos.Common.{
  ℕ, ◌+◌, ◌*◌, ◌/◌, ◌%◌, ◌^◌, ◌<◌, ◌≡◌, refl, ◌∙◌, arith, true, false, ◌==◌, ◌&&◌, if◌then◌else◌,
  update, ok, Returns, ◌>>=◌,
}
use bhos.Bitmap.{Bitmap, return_erro, bitmap_alloc_one_page, bitmap_release_one_page}
use bhos.Bitmap.One.{
  mask_page, in_range-manages, IsWellPlaced, AreBytes, Allocates, is_free, number_of, page_base,
  manages, bitmap_alloc_one_page-free, bitmap_alloc_one_page-taken, bitmap_release_one_page-free,
}
use bhos.Pmm.{Pmm, Alloc}
use bhos.Pmm.Request.{pmm_alloc_one_page}
use bhos.Vmm.{Vmm, get_pte, vmm_v2p, user_get_pde, vmm_user_check_pt_present}
use bhos.Vmm.Address.{vmm_user_check_pt_present_lem}
use bhos.Vmm.Kernel.{AreWords, vmm_v2p-update}
use bhos.Vmm.User.{
  UserTask, user_descriptor, user_vmm_alloc_erro, clean, ensure_page_table, user_map_page,
  vmm_user_alloc_one_page, shows_directory,
}

pub user_descriptor_lem :
    (addr : ℕ) → addr < 2 ^ 32 → user_descriptor addr ≡ addr / 4096 * 4096 + 0x107
unfolding user_descriptor
user_descriptor_lem addr h = rw (mask_page addr h) (omega arith)

module _ (pool : Bitmap) (vaddr : ℕ) (s : Vmm) (a : Alloc) (pm : Pmm)
    (given : pmm_alloc_one_page s.pmm ≡ ok (a, pm)) (lt : vaddr < 2 ^ 32) where
  abbrev user_mapped : Vmm
  user_mapped = record s {
    words = update s.words (get_pte vaddr) (user_descriptor a.addr);
    pmm = pm;
  }

  user_map_page-some :
      (a.state == 0) ≡ false → user_map_page pool vaddr s ≡ ok (page_base vaddr, user_mapped)
  unfolding user_map_page
  user_map_page-some some_page = rw (user_map_page, given, some_page, mask_page vaddr lt) refl

  user_map_page-none :
      (a.state == 0) ≡ true
      → user_map_page pool vaddr s
        ≡ ok (
          user_vmm_alloc_erro,
          record s { memory = bitmap_release_one_page pool vaddr s.memory; pmm = pm },
        )
  unfolding user_map_page clean
  user_map_page-none no_page = rw (user_map_page, given, no_page) refl

module _ (pool : Bitmap) (task : UserTask) (vaddr : ℕ) (s : Vmm)
    (user : task.is_kern_thread ≡ false) where
  abbrev taken : Vmm
  taken = record s { memory = (bitmap_alloc_one_page task.user_vmm_pool vaddr s.memory).1 }

  start :
      ((bitmap_alloc_one_page task.user_vmm_pool vaddr s.memory).0 == return_erro) ≡ false
      → s.words (user_get_pde task.pdt_vaddr vaddr) % 2 ≡ 1
      → vmm_user_alloc_one_page pool task vaddr s ≡ user_map_page pool vaddr taken
  unfolding vmm_user_alloc_one_page ensure_page_table
  start fine present =
      let there : vmm_user_check_pt_present s.words task.pdt_vaddr vaddr ≡ true =
        vmm_user_check_pt_present_lem s.words task.pdt_vaddr vaddr ∙ ground (arith, present) in
      rw (vmm_user_alloc_one_page, user, fine, ◌>>=◌, there) refl

  present-shows :
      ((bitmap_alloc_one_page task.user_vmm_pool vaddr s.memory).0 == return_erro) ≡ false
      → s.words (user_get_pde task.pdt_vaddr vaddr) % 2 ≡ 1
      → shows_directory task vaddr s ≡ true
  unfolding shows_directory
  present-shows fine present =
      let there : vmm_user_check_pt_present s.words task.pdt_vaddr vaddr ≡ true =
        vmm_user_check_pt_present_lem s.words task.pdt_vaddr vaddr ∙ ground (arith, present) in
      rw (user, fine, there) refl

  refused :
      ((bitmap_alloc_one_page task.user_vmm_pool vaddr s.memory) ≡ (return_erro, s.memory))
      → vmm_user_alloc_one_page pool task vaddr s
        ≡ ok
            (user_vmm_alloc_erro, record s { memory = bitmap_release_one_page pool vaddr s.memory })
  unfolding vmm_user_alloc_one_page clean
  refused none_got = rw (vmm_user_alloc_one_page, user, none_got) refl

release_outside :
    (pool : Bitmap) (w : IsWellPlaced pool) (vaddr : ℕ) (m : ℕ → ℕ)
    → vaddr < 2 ^ 32
    → manages pool vaddr ≡ false
    → bitmap_release_one_page pool vaddr m ≡ m
unfolding bitmap_release_one_page
release_outside pool w vaddr m lt outside =
    rw (mask_page vaddr lt, in_range-manages pool w vaddr lt, outside) refl

-- A request for a free page with a page table comes to the text that it prints.
pub free_shows :
    (pool : Bitmap) (task : UserTask) (w : IsWellPlaced task.user_vmm_pool) (vaddr : ℕ) (s : Vmm)
    → (user : task.is_kern_thread ≡ false) → AreBytes s.memory
    → (lt : vaddr < 2 ^ 32) → manages task.user_vmm_pool vaddr ≡ true
    → is_free task.user_vmm_pool s.memory (number_of task.user_vmm_pool vaddr) ≡ true
    → s.words (user_get_pde task.pdt_vaddr vaddr) % 2 ≡ 1
    → shows_directory task vaddr s ≡ true
free_shows pool task w vaddr s user bytes lt inside free present =
    let (got, _, _) =
      bitmap_alloc_one_page-free task.user_vmm_pool w s.memory bytes vaddr lt inside free in
    present-shows pool task vaddr s user (rw got (ground arith)) present

module _ (pool : Bitmap) (task : UserTask) (w : IsWellPlaced task.user_vmm_pool) (vaddr : ℕ)
    (s : Vmm) (user : task.is_kern_thread ≡ false) (bytes : AreBytes s.memory) (lt : vaddr < 2 ^ 32)
    (inside : manages task.user_vmm_pool vaddr ≡ true)
    (free : is_free task.user_vmm_pool s.memory (number_of task.user_vmm_pool vaddr) ≡ true)
    (present : s.words (user_get_pde task.pdt_vaddr vaddr) % 2 ≡ 1) (a : Alloc) (pm : Pmm)
    (given : pmm_alloc_one_page s.pmm ≡ ok (a, pm)) where
  run :
      vmm_user_alloc_one_page pool task vaddr s
      ≡ user_map_page pool vaddr (taken pool task vaddr s user)
  run =
      let (got, _, _) =
        bitmap_alloc_one_page-free task.user_vmm_pool w s.memory bytes vaddr lt inside free in
      let fine : ((bitmap_alloc_one_page task.user_vmm_pool vaddr s.memory).0 == return_erro)
          ≡ false =
        rw got (ground arith) in
      start pool task vaddr s user fine present

  -- The words that such a call leaves.
  pub vmm_user_alloc_one_page-words :
      (a.state == 0) ≡ false
      → Returns
          (λ r t.
            (r ≡ page_base vaddr)
            × (t.words ≡ update s.words (get_pte vaddr) (user_descriptor a.addr))
            × Allocates task.user_vmm_pool vaddr s.memory (r, t.memory)
            × (t.pmm ≡ pm))
          (vmm_user_alloc_one_page pool task vaddr s)
  vmm_user_alloc_one_page-words some_page =
      let (_, bytes', after) =
        bitmap_alloc_one_page-free task.user_vmm_pool w s.memory bytes vaddr lt inside free in
      let u : Vmm = taken pool task vaddr s user in
      (
        page_base vaddr,
        user_mapped pool vaddr u a pm given lt,
        run ∙ user_map_page-some pool vaddr u a pm given lt some_page,
        (refl, refl, (refl, bytes', after), refl),
      )

  -- `vmm_user_alloc_one_page` of a free page of the task's pool, whose page table is there, when the
  -- physical manager has a page: the call returns the page's first address, from then on its addresses
  -- translate into the physical page, all other addresses as before, and of the pool that page alone is
  -- taken.
  pub vmm_user_alloc_one_page-some :
      AreWords s.words
      → (a.state == 0) ≡ false
      → a.addr < 2 ^ 32
      → Returns
          (λ r t.
            (r ≡ page_base vaddr)
            × ((v : ℕ)
                → v < 2 ^ 32
                → vmm_v2p t.words v ≡ (
                    if v / 4096 == vaddr / 4096
                    then a.addr / 4096 * 4096 + v % 4096
                    else vmm_v2p s.words v))
            × Allocates task.user_vmm_pool vaddr s.memory (r, t.memory)
            × (t.pmm ≡ pm))
          (vmm_user_alloc_one_page pool task vaddr s)
  vmm_user_alloc_one_page-some aw some_page ha =
      let (_, bytes', after) =
        bitmap_alloc_one_page-free task.user_vmm_pool w s.memory bytes vaddr lt inside free in
      let frame = user_descriptor_lem a.addr ha in
      let u : Vmm = taken pool task vaddr s user in
      (
        page_base vaddr,
        user_mapped pool vaddr u a pm given lt,
        run ∙ user_map_page-some pool vaddr u a pm given lt some_page,
        (
          refl,
          (λ v hv.
              vmm_v2p-update s.words vaddr (user_descriptor a.addr) v aw lt hv
                (omega (arith, frame))
              ∙ rw frame (ground arith)),
          (refl, bytes', after),
          refl,
        ),
      )

  -- `vmm_user_alloc_one_page` of a free page of the task's pool, whose page table is there and whose address
  -- the pool of the kernel does not manage, when the physical manager has no page: the call returns the
  -- error value and leaves the page tables, but the page stays taken in the task's pool, it alone.
  pub vmm_user_alloc_one_page-none :
      (a.state == 0) ≡ true
      → IsWellPlaced pool
      → manages pool vaddr ≡ false
      → Returns
          (λ r t.
            (r ≡ user_vmm_alloc_erro)
            × (t.words ≡ s.words)
            × Allocates task.user_vmm_pool vaddr s.memory (page_base vaddr, t.memory))
          (vmm_user_alloc_one_page pool task vaddr s)
  vmm_user_alloc_one_page-none no_page wk outside =
      let (_, bytes', after) =
        bitmap_alloc_one_page-free task.user_vmm_pool w s.memory bytes vaddr lt inside free in
      let u : Vmm = taken pool task vaddr s user in
      let kept = release_outside pool wk vaddr u.memory lt outside in
      (
        user_vmm_alloc_erro,
        record u { memory = bitmap_release_one_page pool vaddr u.memory; pmm = pm },
        run ∙ user_map_page-none pool vaddr u a pm given lt no_page,
        (refl, refl, rw kept (refl, bytes', after)),
      )

-- A user's request for an address that its own pool does not manage but the pool of the kernel does is
-- refused with the error value, and the kernel's page is free after it, taken or not before. No other page
-- of the kernel changes, nor do the page tables and the physical manager.
pub vmm_user_alloc_one_page-kernel :
    (pool : Bitmap) (task : UserTask) (vaddr : ℕ) (s : Vmm)
    → task.is_kern_thread ≡ false
    → IsWellPlaced task.user_vmm_pool
    → IsWellPlaced pool
    → AreBytes s.memory
    → vaddr < 2 ^ 32
    → manages task.user_vmm_pool vaddr ≡ false
    → manages pool vaddr ≡ true
    → Returns
        (λ r t.
          (r ≡ user_vmm_alloc_erro)
          × ((k : ℕ)
              → k < pool.length * 8
              → is_free pool t.memory k
                ≡ (if number_of pool vaddr == k then true else is_free pool s.memory k))
          × (t.words ≡ s.words)
          × (t.pmm ≡ s.pmm))
        (vmm_user_alloc_one_page pool task vaddr s)
vmm_user_alloc_one_page-kernel pool task vaddr s user w wk bytes lt outside inside =
    let no_page : (manages task.user_vmm_pool vaddr
          && is_free task.user_vmm_pool s.memory (number_of task.user_vmm_pool vaddr))
        ≡ false =
      rw outside refl in
    let none_got =
      bitmap_alloc_one_page-taken task.user_vmm_pool w s.memory bytes vaddr lt no_page in
    let freed = bitmap_release_one_page-free pool wk s.memory bytes vaddr lt inside in
    (
      user_vmm_alloc_erro,
      record s { memory = bitmap_release_one_page pool vaddr s.memory },
      refused pool task vaddr s user none_got,
      (refl, freed.1, refl, refl),
    )
