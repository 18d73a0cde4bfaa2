-- ===== src/Printk/Print.antt =====
-- `printk`, `printk_color`, `printk_init_lock` and `printbasic` of libs/printk/printk.c.
pub mod Whole
use bhos.Common.{
  ℕ, zero, suc, ◌+◌, Bool, true, false, Option, none, some, List, [], ◌∷◌, ◌==◌, ◌&&◌,
  if◌then◌else◌, Cmd, Fault, ok, fault, pure, ◌>>=◌, ◌>>◌,
}
use bhos.Bitmap.{Memory, memset}
use bhos.Strings.{strcpy}
use bhos.Vga.{Screen, kputs_color, black, white}
use bhos.Sync.{Sync, lock_init, lock_acquire, lock_release}
use bhos.Printk.{insert_str}
use bhos.Printk.Format.{Places, format_loop}

-- What the printing functions read and write: the memory of the strings, the screen, the lock with the
-- threads, and the flag.
pub record Console : Type 0 where
  pub memory : Memory
  pub screen : Screen
  pub printk_lock : Sync
  pub printk_lock_init_flag : Bool

unfoldable pub printk_init_lock : Console → Console
printk_init_lock s = record s {
  printk_lock = lock_init s.printk_lock;
  printk_lock_init_flag = true;
}

-- The characters that `kputs` reads from address `a` on.
unfoldable pub string_at : ℕ → Memory → ℕ → Option (List ℕ)
string_at zero m a = none
string_at (suc fuel) m a = elim (m a == 0) [
  | true ↦ some []
  | false ↦ elim (string_at fuel m (a + 1)) [ none ↦ none | some cs ↦ some (m a ∷ cs) ]
]

-- The array with the converted text.
unfoldable pub formatted : ℕ → Places → ℕ → (ℕ → ℕ) → Memory → Option Memory
formatted fuel p input_str args m = elim (strcpy fuel p.out input_str (memset p.out 0 100 m)) [
  | none ↦ none
  | some copied ↦ format_loop fuel fuel p args 0 0 copied
]

-- The conversion and the output, between the two uses of the lock.
unfoldable pub print_text : ℕ → Places → ℕ → ℕ → ℕ → (ℕ → ℕ) → Cmd Console (Unit {0})
print_text fuel p back fore input_str args s = elim (formatted fuel p input_str args s.memory) [
  | none ↦ fault Fault.endless
  | some m ↦ elim (string_at fuel m p.out) [
    | none ↦ fault Fault.endless
    | some cs ↦ ok (tt, record s { memory = m; screen = kputs_color cs back fore s.screen })
  ]
]

abbrev pub on_lock : {A : Type 0} → Cmd Sync A → Cmd Console A
on_lock c s = elim (c s.printk_lock) [
  | fault e ↦ fault e
  | ok r ↦ ok (r.0, record s { printk_lock = r.1 })
]

-- if(printk_lock_init_flag){ lock_release(&printk_lock); }
unfoldable pub release_if : Cmd Console Bool
release_if s =
    if s.printk_lock_init_flag then (on_lock lock_release >> pure true) s else ok (true, s)

-- if(printk_lock_init_flag){ lock_acquire(&printk_lock); }, with the value false when the thread waits
-- for the lock. `node` is the address of the local variable of `sem_P`.
unfoldable pub acquire_if : (ℕ → ℕ) → ℕ → ℕ → Cmd Console Bool
acquire_if v2p kern_dir node s =
    if s.printk_lock_init_flag then on_lock (lock_acquire v2p kern_dir node) s else ok (true, s)

-- A thread that waits for the lock has printed nothing yet.
unfoldable pub printk_color : (ℕ → ℕ) → ℕ → ℕ → ℕ → Places → ℕ → ℕ → ℕ → (ℕ → ℕ) → Cmd Console Bool
unfolding acquire_if release_if
printk_color v2p kern_dir node fuel p input_str back fore args =
    acquire_if v2p kern_dir node >>= λ done.
    if done then print_text fuel p back fore input_str args >> release_if else pure false

-- `kputs` prints in white on black.
unfoldable pub printk : (ℕ → ℕ) → ℕ → ℕ → ℕ → Places → ℕ → (ℕ → ℕ) → Cmd Console Bool
unfolding printk_color
printk v2p kern_dir node fuel p input_str args =
    printk_color v2p kern_dir node fuel p input_str black white args

-- for(char *head=formatStr;*(head+i)!='\0';i++), with the array of `insert_str` at `temp`.
unfoldable pub printbasic : ℕ → ℕ → ℕ → ℕ → ℕ → ℕ → Memory → Option Memory
printbasic zero fuel temp format_str str i m = none
printbasic (suc rounds) fuel temp format_str str i m = elim (m (format_str + i) == 0) [
  | true ↦ some m
  | false ↦ elim (m (format_str + i) == b'%' && m (format_str + i + 1) == b's') [
    | true ↦ elim (insert_str fuel temp format_str str i m) [
      | none ↦ none
      | some m' ↦ printbasic rounds fuel temp format_str str (i + 1) m'
    ]
    | false ↦ printbasic rounds fuel temp format_str str (i + 1) m
  ]
]
