-- ===== src/Pmm/Setup/Count.antt =====
-- The counters of free blocks.
use bhos.Common.{
  ℕ, zero, suc, ◌+◌, ◌^◌, ◌<◌, ◌≤◌, ◌≡◌, ap, ◌∙◌, arith, true, false, Option, some, List, [], ◌∷◌,
  length, leb, u32, ◌==◌,
}
use bhos.Chain.{Links, Chain}
use bhos.Pmm.{Pmm}
use bhos.Pmm.Free.{Lists, length-IsFree}
use bhos.Pmm.Blocks.{IsRep}
use bhos.Pmm.Setup.{counte_helper, get_block_count, get_single_count}

counte_helper-length :
    (xs : List ℕ) (fuel : ℕ) (nx : Links) (p : Option ℕ) (counter : ℕ)
    → Chain nx p xs
    → length xs < fuel
    → counter + length xs < 2 ^ 32
    → counte_helper fuel nx p counter ≡ some (counter + length xs)
unfolding counte_helper
counte_helper-length xs zero nx p counter c h small = absurd (omega arith)
counte_helper-length [] (suc fuel) nx p counter c h small =
    rw (c, counte_helper) (ap some (omega arith))
counte_helper-length (x ∷ xs) (suc fuel) nx p counter c h small =
    let step : u32 (counter + 1) ≡ counter + 1 = omega arith in
    let rest =
      counte_helper-length xs fuel nx (nx x) (counter + 1) c.1 (omega arith) (omega arith) in
    rw (c.0, counte_helper, step) (rest ∙ ap some (omega arith))

-- In a well-formed state the counters are the lengths of the free lists; the rounds are enough.
pub get_block_count-length :
    (s : Pmm) (f : Lists) (c : ℕ)
    → IsRep s f
    → s.max_page_no < 2 ^ 32
    → c ≤ 10
    → (get_block_count s c ≡ some (length (f c))) × (get_single_count s ≡ some (length (f 11)))
get_block_count-length s f c r small le =
    let class : leb c 10 ≡ true = ground arith in
    let head : (c == 11) ≡ false = ground arith in
    let chain : Chain s.next (s.heads c) (f c) = rw head at (r.chains c) in
    let run =
      counte_helper-length (f c) (suc s.max_page_no) s.next (s.heads c) 0 chain
        (omega (arith, length-IsFree r c)) (omega (arith, length-IsFree r c)) in
    let buffer =
      counte_helper-length (f 11) (suc s.max_page_no) s.next s.single 0 (r.chains 11)
        (omega (arith, length-IsFree r 11)) (omega (arith, length-IsFree r 11)) in
    (rw class (run ∙ ap some (omega arith)), buffer ∙ ap some (omega arith))
