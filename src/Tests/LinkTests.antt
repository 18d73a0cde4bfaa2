-- ===== src/Tests/LinkTests.antt =====
-- The linked list, libs/utils/list.c, with the nodes 0x90, 0xA0 and 0xB0.
use bhos.Common.{◌*◌, ◌≡◌, refl, arith, true, none, some, [], ◌∷◌, update, Returns, ◌==◌, ok}
use bhos.Link.{Link, link_add_tail, link_add_head, remove_where}
use bhos.Link.Change.{IsLink}
use bhos.Link.Locked.{LockedLink, add_tail_locked, add_head_locked, remove_locked}
use bhos.Link.Locked.Same.{IsOpen, locked-unlocked}
use bhos.Tests.ThreadsTests.{no_pages}
use bhos.Tests.SyncTests.{free_lock, free_lock-IsFree}

abbrev three : Link
three = record {
  head = some 0x90;
  next = update (update (λ _. none) 0x90 (some 0xA0)) 0xA0 (some 0xB0);
  node_data = λ a. a * 2;
  count = 5;
}

three-IsLink : IsLink three (0x90 ∷ 0xA0 ∷ 0xB0 ∷ [])
three-IsLink = record {
  chain = (refl, (refl, (refl, refl)));
  distinct = (refl, (refl, (refl, tt)));
  counted = omega arith;
}

abbrev shared : LockedLink
shared = record { link = three; have_lock = true; lock_init_flag = true; lock = free_lock }

locked-unlocked_example :
    Returns
      (λ done t. (done ≡ true) × (link_add_tail 0xC0 three ≡ ok (tt, t.link)) × IsOpen shared t)
      (add_tail_locked no_pages 0x5000 0xB0 0xC0 shared)
    × Returns
        (λ done t. (done ≡ true) × (t.link ≡ link_add_head 0xC0 three) × IsOpen shared t)
        (add_head_locked no_pages 0x5000 0xB0 0xC0 shared)
    × Returns
        (λ answer t.
          (answer ≡ some true)
          × (remove_where (λ q. q == 0xA0) three ≡ ok (true, t.link))
          × IsOpen shared t)
        (remove_locked no_pages 0x5000 0xB0 (λ q. q == 0xA0) shared)
locked-unlocked_example =
    locked-unlocked no_pages 0x5000 0xB0 0x10 (0x90 ∷ 0xA0 ∷ []) shared (λ _. free_lock-IsFree)
      (λ q. q == 0xA0) 0xC0 0x90 (0xA0 ∷ 0xB0 ∷ []) three-IsLink
