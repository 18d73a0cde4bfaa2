-- ===== src/Log.antt =====
-- The log: kernel/modules/log/kern_log.c and include/kern_log.h, on the printing functions.
--
-- A call gets the addresses of its two strings; the literal it prints with stands at `format`. `rest` gives
-- the words of the stack behind the two arguments, which no directive of the literal asks for.
pub mod Lines
use bhos.Common.{ℕ, Bool, List, [], ◌∷◌, ◌==◌, if◌then◌else◌, Cmd, Fault, fault, ◌>>=◌}
use bhos.Vga.{black, white}
use bhos.Printk.Format.{Places}
use bhos.Printk.Print.{Console, printk, printk_color}

abbrev pub red : ℕ
red = 4

abbrev pub yellow : ℕ
yellow = 14

-- The words behind the named parameters.
abbrev pub two_args : ℕ → ℕ → (ℕ → ℕ) → ℕ → ℕ
two_args src text rest n = if n == 0 then src else if n == 1 then text else rest n

-- "[%s]%s\n", with which all four formats end.
abbrev tail_format : List ℕ
tail_format = b'[' ∷ b'%' ∷ b's' ∷ b']' ∷ b'%' ∷ b's' ∷ 10 ∷ []

abbrev pub info_format : List ℕ
info_format = b'[' ∷ b'I' ∷ b'N' ∷ b'F' ∷ b'O' ∷ b']' ∷ tail_format

abbrev pub error_format : List ℕ
error_format = b'[' ∷ b'E' ∷ b'R' ∷ b'R' ∷ b'O' ∷ b'R' ∷ b']' ∷ tail_format

abbrev pub warning_format : List ℕ
warning_format = b'[' ∷ b'W' ∷ b'A' ∷ b'R' ∷ b'N' ∷ b'I' ∷ b'N' ∷ b'G' ∷ b']' ∷ tail_format

abbrev pub stop_format : List ℕ
stop_format = b'[' ∷ b'S' ∷ b'T' ∷ b'O' ∷ b'P' ∷ b']' ∷ tail_format

module _ (v2p : ℕ → ℕ) (kern_dir node fuel : ℕ) (p : Places) (format : ℕ) (rest : ℕ → ℕ) where
  unfoldable pub info_kern : ℕ → ℕ → Cmd Console Bool
  info_kern src text = printk v2p kern_dir node fuel p format (two_args src text rest)

  unfoldable pub error_kern : ℕ → ℕ → Cmd Console Bool
  error_kern src text =
      printk_color v2p kern_dir node fuel p format black red (two_args src text rest)

  unfoldable pub warning_kern : ℕ → ℕ → Cmd Console Bool
  warning_kern src text =
      printk_color v2p kern_dir node fuel p format black yellow (two_args src text rest)

  -- while(1){}
  unfoldable pub stop_kern : ℕ → ℕ → Cmd Console Bool
  stop_kern src text =
      printk_color v2p kern_dir node fuel p format white black (two_args src text rest) >>= λ _ _.
      fault Fault.endless

-- DEBUG_FLAGE is set.
abbrev pub debug : (ℕ → ℕ → Cmd Console Bool) → ℕ → ℕ → Cmd Console Bool
debug func src text = func src text
