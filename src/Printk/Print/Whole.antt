-- ===== src/Printk/Print/Whole.antt =====
-- The printing functions as a whole: the format, the screen and the lock.
use bhos.Common.{
  ℕ, zero, suc, ◌+◌, ◌^◌, ◌<◌, ◌≤◌, ◌≡◌, refl, ◌∙◌, arith, Bool, true, false, Bool-cases, inl, inr,
  none, some, List, [], ◌∷◌, length, ◌==◌, if◌then◌else◌, Returns, ok, ◌>>=◌, ◌>>◌, pure,
}
use bhos.Bitmap.{Memory, memset}
use bhos.Bitmap.Fill.{memset-bytes}
use bhos.Strings.{strcpy}
use bhos.Strings.Spelled.{
  Spells, Spells-frame, Spells-placed, Spells-IsText, inside, placed, placed-outside,
}
use bhos.Strings.Copy.{strcpy-placed}
use bhos.Vga.{kputs_color}
use bhos.Sync.{Sync, lock_acquire, lock_release}
use bhos.Sync.Guarded.{IsFree}
use bhos.Sync.Lock.{IsLock-one, IsLock-zero, lock_acquire-free, lock_release-IsLock, taken}
use bhos.Printk.Format.{Places, format_loop}
use bhos.Printk.Format.Render.{
  render, needed, IsConst, AreGiven, AreGiven-frame, of_printk, clear-inside, length-needed,
  length-render,
}
use bhos.Printk.Format.Step.{AreLaid, HasLiterals, HasLiterals-frame}
use bhos.Printk.Format.Loop.{format_loop-render, beside_both}
use bhos.Printk.Print.{
  Console, string_at, formatted, print_text, on_lock, acquire_if, release_if, printk_color,
}

string_at-Spells :
    (fuel : ℕ) (m : Memory) (a : ℕ) (cs : List ℕ)
    → Spells m a cs
    → length cs < fuel
    → string_at fuel m a ≡ some cs
unfolding string_at
string_at-Spells zero m a cs s f = absurd (omega arith)
string_at-Spells (suc fuel) m a [] s f =
    let stop : (m a == 0) ≡ true = ground arith in rw (string_at, stop) refl
string_at-Spells (suc fuel) m a (c ∷ cs) s f =
    let go : (m a == 0) ≡ false = rw s.0 s.1 in
    rw (string_at, go, string_at-Spells fuel m (a + 1) cs s.2 (omega arith), s.0) refl

same_branch : (b : Bool) (x y : ℕ) → y ≡ x → (if b then x else y) ≡ x
same_branch b x y e = ground arith

formatted_run :
    (fuel : ℕ) (p : Places) (input_str : ℕ) (args : ℕ → ℕ) (m copied m' : Memory)
    → strcpy fuel p.out input_str (memset p.out 0 100 m) ≡ some copied
    → format_loop fuel fuel p args 0 0 copied ≡ some m'
    → formatted fuel p input_str args m ≡ some m'
unfolding formatted
formatted_run fuel p input_str args m copied m' first second = rw (formatted, first) second

module _ (fuel : ℕ) (p : Places) (text : ℕ → List ℕ) (args : ℕ → ℕ) (input_str : ℕ) (fmt : List ℕ)
    (m : Memory) (laid : AreLaid p) (l : HasLiterals m p) (input : IsConst m p input_str fmt)
    (given : AreGiven text args m p 0 fmt) (small : (n : ℕ) → args n < 2 ^ 32)
    (room : needed text args 0 fmt ≤ 99) (enough : 100 < fuel) where
  abbrev copied : Memory
  copied = placed p.out fmt (memset p.out 0 100 m)

  cleared_input : Spells (memset p.out 0 100 m) input_str fmt
  cleared_input = Spells-frame m (memset p.out 0 100 m) input_str fmt input.spelled (λ o i.
      memset-bytes p.out 0 100 m o laid.out_whole
      ∙ ground (arith, clear-inside p.out 99 input_str (length fmt) o input.off_out i))

  copied_same : (o : ℕ) → (if of_printk p o then m o else copied o) ≡ m o
  copied_same o = elim (Bool-cases (inside p.out 99 o)) [
    | inl e ↦ rw e refl
    | inr e ↦
        let same : copied o ≡ m o =
          placed-outside p.out fmt (memset p.out 0 100 m) o
            (ground (arith, length-needed text args 0 fmt))
          ∙ memset-bytes p.out 0 100 m o laid.out_whole
          ∙ ground arith in
        same_branch (of_printk p o) (m o) (copied o) same
  ]

  formatted-render :
      (m' : Memory) × (formatted fuel p input_str args m ≡ some m')
      × Spells m' p.out (render text args 0 fmt)
      × ((o : ℕ) → (if of_printk p o then m o else m' o) ≡ m o)
  formatted-render =
      let short = length-needed text args 0 fmt in
      let (m', run, spelled, beside) =
        format_loop-render fuel text args p laid enough small fuel 0 [] fmt copied
          (Spells-placed p.out fmt (memset p.out 0 100 m)
            (Spells-IsText m input_str fmt input.spelled))
          (AreGiven-frame text args m copied p copied_same 0 fmt given)
          (HasLiterals-frame m copied p copied_same l) (omega arith) (omega arith) in
      (
        m',
        formatted_run fuel p input_str args m copied m'
            (strcpy-placed fuel p.out input_str (memset p.out 0 100 m) fmt cleared_input
              (ground (arith, short, input.off_out)) (omega (arith, short)))
            run,
        spelled,
        (λ o. beside_both (of_printk p o) (m o) (copied o) (m' o) (copied_same o) (beside o)),
      )

-- The three parts of the output, one after the other.
print_run :
    (fuel : ℕ) (p : Places) (back fore input_str : ℕ) (args : ℕ → ℕ) (s : Console) (m : Memory)
    (cs : List ℕ)
    → formatted fuel p input_str args s.memory ≡ some m
    → string_at fuel m p.out ≡ some cs
    → print_text fuel p back fore input_str args s
      ≡ ok (tt, record s { memory = m; screen = kputs_color cs back fore s.screen })
unfolding print_text
print_run fuel p back fore input_str args s m cs first second = rw (print_text, first, second) refl

-- The lock is taken and given back, or left alone.
acquire_locked :
    (v2p : ℕ → ℕ) (kern_dir node : ℕ) (s : Console) (held : Sync)
    → s.printk_lock_init_flag ≡ true
    → lock_acquire v2p kern_dir node s.printk_lock ≡ ok (true, held)
    → acquire_if v2p kern_dir node s ≡ ok (true, record s { printk_lock = held })
unfolding acquire_if
acquire_locked v2p kern_dir node s held e run =
    (λ j. if e j then on_lock (lock_acquire v2p kern_dir node) s else ok (true, s))
    ∙ rw (on_lock, run) refl

acquire_unlocked :
    (v2p : ℕ → ℕ) (kern_dir node : ℕ) (s : Console)
    → s.printk_lock_init_flag ≡ false
    → acquire_if v2p kern_dir node s ≡ ok (true, s)
unfolding acquire_if
acquire_unlocked v2p kern_dir node s e j =
    if e j then on_lock (lock_acquire v2p kern_dir node) s else ok (true, s)

release_locked :
    (s : Console) (free : Sync)
    → s.printk_lock_init_flag ≡ true
    → lock_release s.printk_lock ≡ ok (tt, free)
    → release_if s ≡ ok (true, record s { printk_lock = free })
unfolding release_if
release_locked s free e run =
    (λ j. if e j then (on_lock lock_release >> pure true) s else ok (true, s))
    ∙ rw (◌>>◌, ◌>>=◌, on_lock, run) refl

release_unlocked : (s : Console) → s.printk_lock_init_flag ≡ false → release_if s ≡ ok (true, s)
unfolding release_if
release_unlocked s e j = if e j then (on_lock lock_release >> pure true) s else ok (true, s)

color_run :
    (v2p : ℕ → ℕ) (kern_dir node fuel : ℕ) (p : Places) (input_str back fore : ℕ) (args : ℕ → ℕ)
    (s s1 s2 s3 : Console)
    → acquire_if v2p kern_dir node s ≡ ok (true, s1)
    → print_text fuel p back fore input_str args s1 ≡ ok (tt, s2)
    → release_if s2 ≡ ok (true, s3)
    → printk_color v2p kern_dir node fuel p input_str back fore args s ≡ ok (true, s3)
unfolding printk_color
color_run v2p kern_dir node fuel p input_str back fore args s s1 s2 s3 first second third =
    rw (printk_color, ◌>>=◌, first, ◌>>◌, second) third

-- From `s` to `t`: a lock in use is free with value 1, and one that is not in use is as it was.
abbrev pub IsUnlocked : Console → Console → Type 0
IsUnlocked s t =
    (s.printk_lock_init_flag ≡ true → (t.printk_lock.holder ≡ none) × (t.printk_lock.val ≡ 1))
    × (s.printk_lock_init_flag ≡ false → t.printk_lock ≡ s.printk_lock)

-- The console as `printk_color` leaves it, but for its lock.
abbrev printed : Console → Memory → List ℕ → ℕ → ℕ → Console
printed s m cs back fore = record s { memory = m; screen = kputs_color cs back fore s.screen }

module _ (v2p : ℕ → ℕ) (kern_dir node fuel : ℕ) (p : Places) (text : ℕ → List ℕ) (args : ℕ → ℕ)
    (input_str : ℕ) (fmt : List ℕ) (back fore c : ℕ) (ns : List ℕ) (s : Console) (laid : AreLaid p)
    (l : HasLiterals s.memory p) (input : IsConst s.memory p input_str fmt)
    (given : AreGiven text args s.memory p 0 fmt) (small : (n : ℕ) → args n < 2 ^ 32)
    (room : needed text args 0 fmt ≤ 99) (enough : 100 < fuel)
    (usable : s.printk_lock_init_flag ≡ true → IsFree s.printk_lock c ns) where
  -- `printk_color` of a format and arguments that need at most 99 characters, with its arrays apart and the
  -- lock free if it is in use, whatever it holds before `printk_init_lock`, returns: the array holds the
  -- format with every directive replaced by the text of its argument, the screen is the one with that text
  -- put on it, no byte beside the arrays changes, a lock in use is free with value 1, and one not yet in use
  -- is as it was.
  pub printk_color-render :
      Returns
        (λ done t.
          (done ≡ true)
          × Spells t.memory p.out (render text args 0 fmt)
          × (t.screen ≡ kputs_color (render text args 0 fmt) back fore s.screen)
          × ((o : ℕ) → (if of_printk p o then s.memory o else t.memory o) ≡ s.memory o)
          × IsUnlocked s t)
        (printk_color v2p kern_dir node fuel p input_str back fore args s)
  printk_color-render =
      let cs = render text args 0 fmt in
      let (m', run, spelled, beside) =
        formatted-render fuel p text args input_str fmt s.memory laid l input given small room
          enough in
      let read =
        string_at-Spells fuel m' p.out cs spelled (omega (arith, length-render text args 0 fmt)) in
      elim (Bool-cases s.printk_lock_init_flag) [
        | inr e ↦
            let t = printed s m' cs back fore in
            (
              true,
              t,
              color_run v2p kern_dir node fuel p input_str back fore args s s t t
                  (acquire_unlocked v2p kern_dir node s e)
                  (print_run fuel p back fore input_str args s m' cs run read)
                  (release_unlocked t e),
              (refl, spelled, refl, beside, ((λ u. absurd (ground (arith, e, u))), (λ _. refl))),
            )
        | inl e ↦
            let free = usable e in
            let held : Sync = taken s.printk_lock in
            let lock : Console = record s { printk_lock = held } in
            let t = printed lock m' cs back fore in
            let (_, after, last, (unheld, fine, _, _, _)) =
              lock_release-IsLock held c ns free.current free.current
                (IsLock-zero held c free.current refl) free.queue in
            (
              true,
              record t { printk_lock = after },
              color_run v2p kern_dir node fuel p input_str back fore args s lock t
                  (record t { printk_lock = after })
                  (acquire_locked v2p kern_dir node s held e (
                    lock_acquire-free v2p kern_dir node c s.printk_lock free.current free.unheld
                      free.one))
                  (print_run fuel p back fore input_str args lock m' cs run read)
                  (release_locked t after e last),
              (
                refl,
                spelled,
                refl,
                beside,
                (
                  (λ _. (unheld, IsLock-one after unheld fine)),
                  (λ u. absurd (ground (arith, e, u))),
                ),
              ),
            )
      ]
