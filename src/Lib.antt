-- ===== src/Lib.antt =====
-- Verification library of BHOS, a 32-bit x86 teaching kernel in C.
--
-- The kernel hands out physical pages (kernel/modules/pmm), marks virtual pages in bitmaps
-- (kernel/modules/bitmap), maps virtual pages to physical ones (kernel/modules/vmm), runs kernel threads
-- in a ring (kernel/modules/threads, driven by the timer handler of kernel/modules/interrupt), and lets
-- threads wait for each other (kernel/modules/sync). The virtual memory takes its pages from the bitmap
-- and the physical manager; a semaphore blocks and wakes threads, which calls the scheduler. A new thread
-- gets a page of the kernel, a user task two pages of its own. Text is built with the routines of
-- libs/string, printed by libs/printk under a lock, and put on the screen (kernel/drivers/vga).
--
-- Files and what they model:
--   Common      words of 32 bits, Boolean tests, lists, stores, and commands that can fault
--   Chain       singly linked lists of nodes by address, and the walks along them
--   Pmm         include/pmm.h and the buddy lists of kernel/modules/pmm/pmm.c: `append_block`,
--               `pop_block`, `find_and_pop_block` and the page arithmetic; below it Blocks (what these do
--               to the lists), Request (`pmm_alloc_pages`, `pmm_alloc_one_page`), Release
--               (`free_helper`, `pmm_free_page`) and Setup (`pmm_init` and the counters)
--   Bitmap      kernel/modules/bitmap/bitmap.c over a memory of bytes
--   Threads     kernel/modules/threads/threads.c, the flags of `switch_to` in
--               kernel/modules/threads/threads_asm.s, `active_task` of kernel/modules/user_task/user_task.c,
--               and `cli_condition`, `sti_condition` and `timer_server_func` of
--               kernel/modules/interrupt/interrupt.c
--   Vmm         the kernel pages, translation and P-bit tests of kernel/modules/vmm/vmm.c; below it Init
--               (`vmm_kern_init`) and User (the pages of a task, and its bitmap and directory from
--               kernel/modules/user_task/user_task.c)
--   Sync        kernel/modules/sync/sync.c; in System the threads that share a lock, as a step relation
--   Tasks       `create_kern_thread` of kernel/modules/threads/threads.c, `create_user_task` and
--               `start_user_task` of kernel/modules/user_task/user_task.c, over Threads and Vmm
--   Link        libs/utils/list.c, for a list without a lock; in Locked with one
--   Interrupt   kernel/modules/interrupt/interrupt.c: the descriptor table and the servers; with it the
--               set-up of kernel/drivers/_8259A/_8259A.c and `keyboard_init`
--   Tss         kernel/modules/tss/tss.c
--   Vga         the text screen, kernel/drivers/vga/vga_basic.c
--   Strings     libs/string/string.c, over a memory of bytes; in Hex `func` and `num2hexstr`
--   Printk      libs/printk/printk.c: `insert_str`, in Format the loop over the directives, in Print the
--               printing functions with their lock
--   Log         kernel/modules/log/kern_log.c
--   Entry       `kern_entry` of kernel/entry.c, which joins the components' states
--   Tests       runs at concrete inputs
--
-- How the code corresponds. A function of the source keeps its name; the static variables of a file are
-- the fields of a record that the functions pass on. A pointer is an `Option` of an address, a field of a
-- pointed-to struct is a function of the address. A value of uint32_t is a natural number, and the sums,
-- differences and shifts that can leave 32 bits are written with `u32` and `sub32`. A command (`Cmd`)
-- ends with a value and a state, or with a fault: a read of an uninitialised variable, a NULL
-- dereference, a write out of the memory that is there, or a loop that used up its rounds, which is also how
-- STOP, which never returns, is written.
--
-- Rounds. Walks along the page lists get `pmm_max_page_no` rounds, the number of pages that can be in a
-- list; the loop over the bits of a request gets 33, one more than a word has bits; loops and recursions
-- over the block classes get 12, the number of values of page_c_t; the loop that files
-- blocks of 1024 pages gets 2^22, as many as fit into 32 bits; walks along the ring of threads get
-- `count`, the number of threads that were made; the walk to the end of a wait queue gets `nodes`, which is to exceed
-- the number of nodes, and a walk along a list of libs/utils/list.c `count`, likewise. The loops
-- over a string get a number of rounds that is to exceed its length, `printk` 101, one more than its array
-- has bytes, and `func` one more than the digits of its number. Loops over the 25 rows of 80
-- columns, the 48 interrupts and the bytes of a copy are recursions on their number. The theorems that
-- use a walk or a string ask for the chain or the string to fit, and give the result.
--
-- Not modelled: assembly (boot sector, `exit_int`, the stubs of the interrupts, and of `switch_to` all
-- registers but the flags), port reads,
-- what the interrupt servers print, the system calls, which have no body, and the line that `kern_entry`
-- prints before it loops. A thread that waits for a lock is followed up to the wait; how it goes on is
-- modelled in Sync/System alone. Lines that are printed for the log or for debugging are left out of the
-- operations that print them: that of `free_helper`, that of `vmm_user_alloc_one_page` (but not the `sti` behind
-- it), and the WARNING of `schedule` that all threads are blocked, which takes the lock of `printk` and may
-- wait for it or wake a thread. `page_array` is a store of its own; `pmm_page_init` faults where the array would
-- leave the memory between its address and the video memory, which the code does not test. The page tables are
-- words by their addresses: that a change of a directory entry moves what the last 4 MB show is left out. The words on the stack behind the named parameters of `printk` are a
-- function that is an argument. Of the other modelled files the
-- printing tests are left out. The TLB is taken to be coherent.
-- `vmm_v2p` is an argument of the scheduler, which only compares its result with the error value. The
-- processor's `ltr` is an argument of `tss_init`. A byte that is written to a port is an entry of a
-- sequence.
pub mod Common
pub mod Chain
pub mod Pmm
pub mod Bitmap
pub mod Threads
pub mod Interrupt
pub mod Tasks
pub mod Tss
pub mod Vmm
pub mod Sync
pub mod Link
pub mod Vga
pub mod Strings
pub mod Printk
pub mod Log
pub mod Entry
pub mod Tests
