-- ===== src/Interrupt/Tables.antt =====
-- What `idt_init` leaves in the tables.
use bhos.Common.{
  ℕ, zero, suc, ◌+◌, ◌*◌, ◌/◌, ◌%◌, ◌^◌, ◌<◌, ◌≡◌, refl, ◌∙◌, arith, false, Option, some, ◌==◌, ltb,
  if◌then◌else◌,
}
use bhos.Interrupt.{
  Descriptor, Server, default, page_fault, timer, Interrupts, default_inf, kern_cs, set_int_discs,
  register_defaults, idt_init, init_8259A,
}

-- The address that the processor reads from a descriptor.
abbrev pub offset_of : Descriptor → ℕ
offset_of d = d.offset_low + 2 ^ 16 * d.offset_high

-- A present interrupt gate of the kernel's code segment for the given address.
abbrev pub gate : ℕ → Descriptor
gate addr = record {
  offset_low = addr % 2 ^ 16;
  selector = kern_cs;
  default_bit8 = 0;
  inf = default_inf;
  offset_high = addr / 2 ^ 16 % 2 ^ 16;
}

set_int_discs-entries :
    (isr : ℕ → ℕ) (k n : ℕ) (s : Interrupts)
    → (set_int_discs isr k s).idt_entries n ≡ (if ltb n k then gate (isr n) else s.idt_entries n)
unfolding set_int_discs
set_int_discs-entries isr zero n s = ground arith
set_int_discs-entries isr (suc k) n s = ground (arith, set_int_discs-entries isr k n s)

set_int_discs-servers :
    (isr : ℕ → ℕ) (k : ℕ) (s : Interrupts)
    → (set_int_discs isr k s).int_server_func_list ≡ s.int_server_func_list
unfolding set_int_discs
set_int_discs-servers isr zero s = refl
set_int_discs-servers isr (suc k) s = set_int_discs-servers isr k s

register_defaults-entries :
    (k : ℕ) (s : Interrupts) → (register_defaults k s).idt_entries ≡ s.idt_entries
unfolding register_defaults
register_defaults-entries zero s = refl
register_defaults-entries (suc k) s = ground (arith, register_defaults-entries k s)

register_defaults-servers :
    (k n : ℕ) (s : Interrupts)
    → (register_defaults k s).int_server_func_list n ≡ (
        if ltb n k
        then (if n == 32 then s.int_server_func_list n else some default)
        else s.int_server_func_list n)
unfolding register_defaults
register_defaults-servers zero n s = ground arith
register_defaults-servers (suc k) n s = ground (arith, register_defaults-servers k n s)

-- The servers that `idt_init` registers; the others stay.
abbrev pub servers : (ℕ → Option Server) → ℕ → Option Server
servers before n =
    if n == 14
    then some page_fault
    else if n == 32
    then some timer
    else if ltb n 48
    then some default
    else before n

entries_before :
    (isr : ℕ → ℕ) (n : ℕ) (s : Interrupts)
    → (register_defaults 48 (set_int_discs isr 48 s)).idt_entries n
      ≡ (if ltb n 48 then gate (isr n) else s.idt_entries n)
entries_before isr n s =
    rw (register_defaults-entries 48 (set_int_discs isr 48 s)) (set_int_discs-entries isr 48 n s)

servers_before :
    (isr : ℕ → ℕ) (n : ℕ) (s : Interrupts)
    → (register_defaults 48 (set_int_discs isr 48 s)).int_server_func_list n ≡ (
        if ltb n 48
        then (if n == 32 then s.int_server_func_list n else some default)
        else s.int_server_func_list n)
servers_before isr n s =
    register_defaults-servers 48 n (set_int_discs isr 48 s)
    ∙ rw (set_int_discs-servers isr 48 s) refl

pub idt_init-servers :
    (isr : ℕ → ℕ) (s : Interrupts) (n : ℕ)
    → (idt_init isr s).int_server_func_list n ≡ servers s.int_server_func_list n
unfolding idt_init
idt_init-servers isr s n = ground (arith, servers_before isr n (init_8259A s))

-- After `idt_init` each of the first 48 descriptors is a gate that leads to its stub, for stubs at 32-bit
-- addresses, and the others are as before; interrupt 14 goes to the page fault's server, 32 to the
-- timer's, the rest of the first 48 to the default one, and no other entry changes; interrupts are
-- closed.
pub idt_init-gate :
    (isr : ℕ → ℕ) (s : Interrupts) (n : ℕ)
    → isr n < 2 ^ 32
    → ((idt_init isr s).idt_entries n ≡ (if ltb n 48 then gate (isr n) else s.idt_entries n))
      × (offset_of (gate (isr n)) ≡ isr n)
      × ((idt_init isr s).int_server_func_list n ≡ servers s.int_server_func_list n)
      × ((idt_init isr s).int_flag ≡ false)
unfolding idt_init
idt_init-gate isr s n small =
    (entries_before isr n (init_8259A s), omega arith, idt_init-servers isr s n, refl)
