-- ===== src/Pmm/Setup/Init.antt =====
-- What `pmm_page_init` and `pmm_init` leave behind.
use bhos.Common.{
  ℕ, zero, suc, ◌+◌, ◌-◌, ◌*◌, ◌^◌, ◌<◌, ◌≡◌, refl, ◌∙◌, arith, true, none, [], update, ltb,
  if◌then◌else◌, Returns, ok, Cmd, ◌>>=◌, ◌>>◌,
}
use bhos.Chain.{Links}
use bhos.Pmm.{Pmm}
use bhos.Pmm.Free.{Lists}
use bhos.Pmm.Blocks.{IsRep}
use bhos.Pmm.Setup.{
  clear_pages, clear_links, append_blocks, first_blocks, fill_1024, put_buffer, array_fits,
  pmm_page_init,
}
use bhos.Pmm.Setup.Fill.{
  IsFilled, IsFilled-later, lists_with, AreAscending, append_blocks-IsFilled, blocks_1024,
  count_1024, fill_1024-IsFilled,
}
use bhos.Pmm.Setup.Single.{range, put_buffer-IsRep}

clear_pages-none : (n a : ℕ) (nx : Links) → clear_pages n nx a ≡ (if ltb a n then none else nx a)
unfolding clear_pages
clear_pages-none zero a nx = ground arith
clear_pages-none (suc n) a nx = ground (arith, clear_pages-none n a nx)

cleared-IsFilled :
    (s : Pmm) → s.single ≡ none → IsFilled (clear_links s) (clear_links s) (λ _. []) 0
unfolding clear_links
cleared-IsFilled s e = record {
  rep = record {
    chains = λ c. ground arith;
    distinct = λ c. tt;
    disjoint = λ c d a ne i. refl;
    inside = λ c a i. ground arith;
  };
  kept = (refl, refl, refl, refl);
  below = λ d a i. ground arith;
  fresh = λ a u v. clear_pages-none s.max_page_no a s.next ∙ ground arith;
}

first_blocks-AreAscending : (max : ℕ) → 2048 < max → AreAscending max 0 first_blocks
first_blocks-AreAscending max h = ground arith

-- The first page of the buffer.
abbrev pub first_single : ℕ → ℕ
first_single max = 2048 + 1024 * count_1024 max 2048

-- The blocks of the first 2048 pages, and the blocks of 1024 pages behind them.
unfoldable pub initial_blocks : ℕ → Lists
initial_blocks max =
    lists_with (lists_with (λ _. []) first_blocks) (blocks_1024 (count_1024 max 2048) 2048)

-- The free pages of a machine with `max` pages.
abbrev pub initial : ℕ → Lists
initial max = update (initial_blocks max) 11 (range (max - first_single max) (first_single max))

in_turn :
    (m1 : Cmd Pmm (Unit {0})) (m2 : Cmd Pmm ℕ) (m3 : ℕ → Cmd Pmm (Unit {0})) (s t u v : Pmm) (q : ℕ)
    → m1 s ≡ ok (tt, t)
    → m2 t ≡ ok (q, u)
    → m3 q u ≡ ok (tt, v)
    → (m1 >> (m2 >>= m3)) s ≡ ok (tt, v)
in_turn m1 m2 m3 s t u v q a b c = rw (◌>>◌, ◌>>=◌, a, b) c

-- After `pmm_page_init`, on an empty buffer, the free pages are the initial ones.
abbrev pub IsInitial : Pmm → ℕ → ℕ → Type 0
IsInitial t start max =
    IsRep t (initial max)
    × (t.page_start ≡ start)
    × (t.max_page_no ≡ max)
    × (t.single_first ≡ first_single max)

buffer-IsRep :
    (s0 u : Pmm) (f : Lists) (q : ℕ)
    → IsFilled s0 u f q
    → s0.single ≡ none
    → q ≡ first_single s0.max_page_no
    → 2048 < s0.max_page_no
    → let max = s0.max_page_no in
      Returns
        (λ _ t.
          IsRep t (update f 11 (range (max - first_single max) (first_single max)))
          × (t.page_start ≡ s0.page_start)
          × (t.max_page_no ≡ max)
          × (t.single_first ≡ first_single max))
        (put_buffer q u)
buffer-IsRep s0 u f q i e at lo =
    let max = s0.max_page_no in
    let n = max - q - 1 in
    let (_, t, run, post) = put_buffer-IsRep s0 u f n q i e (omega arith) in
    let count : suc n ≡ max - first_single max = omega arith in
    (tt, t, run, (rw (← count, ← at) post.0, post.1, post.2, post.3 ∙ at))

pub pmm_page_init-IsInitial :
    (s : Pmm)
    → s.single ≡ none
    → 2048 < s.max_page_no
    → array_fits s.max_page_no ≡ true
    → Returns (λ _ t. IsInitial t s.page_start s.max_page_no) (pmm_page_init s)
unfolding initial_blocks clear_links pmm_page_init
pmm_page_init-IsInitial s e lo fits =
    let hi : s.max_page_no < 2 ^ 31 = ground (arith, fits) in
    let max = s.max_page_no in
    let s1 : Pmm = clear_links s in
    let (_, t, run1, filled) =
      append_blocks-IsFilled first_blocks s1 s1 (λ _. []) 0 (cleared-IsFilled s e)
        (first_blocks-AreAscending max lo) in
    let (q, u, run2, post) =
      fill_1024-IsFilled (count_1024 max 2048) 4194304 2048 s1 t (lists_with (λ _. []) first_blocks)
        (IsFilled-later filled 2048 (omega arith)) (omega arith) hi refl (omega arith) in
    let (_, v, run3, done) = buffer-IsRep s1 u (initial_blocks max) q post.1 e post.0 lo in
    (
      tt,
      v,
      rw fits (
          in_turn (append_blocks first_blocks) (fill_1024 4194304 2048) put_buffer s1 t u v q run1
            run2 run3),
      done,
    )
