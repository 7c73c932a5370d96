-- ===== src/Lib.antt =====
-- Verification of the systems programs of this repository: the physical pages, the page tables,
-- the paging to disk, the system calls, the environments and the scheduler of the kernel in
-- os_final_project/code, its console, the strings, pipes and descriptors of its library, its file
-- system and the tokens of its shell; and of the cache simulator of cs_2200/caching/prj5, the
-- virtual memory simulator of cs_2200/memory/prj4, the CPU scheduler of cs_2200/scheduling/prj6,
-- the reliable transfer of cs_2200/networking/prj7 and the assembler of cs_2200/pipeline/prj3.
--
-- The parts and how they interact. In the kernel, page_alloc reports each page that it maps for
-- an environment to on_page_alloc_success, which appends the frame to the list in_use_frames;
-- when memory is full, handle_out_of_pages takes a victim from that list with
-- remove_victim_page and a swap block from the bitmap with alloc_blockno, and page_to_disk
-- writes the page to the block and marks its entry; page_lookup finds such an entry and calls
-- page_fault_intercept, which brings the page back. page_insert, page_remove and user_mem_check
-- find entries with pgdir_walk, and count the references of pages, the last of which
-- page_decref turns into a free page. The system calls name environments by their ids:
-- sys_page_alloc maps a new page for one, sys_page_map shares a page between two,
-- sys_ipc_try_send hands a value to one that waits in sys_ipc_recv. A pipe is a page that two
-- processes share. When an environment dies, env_destroy_cleanup takes its frames off the list.
-- env_alloc and env_free give out and take back slots of the table of environments, envid2env
-- looks an id up, and sched_yield chooses who runs. In the file system, file_set_size and
-- file_get_block find the number of a file's block with file_block_walk and give blocks back to
-- the bitmap or take them from it. The simulators, the CPU scheduler and the transfer are
-- programs of their own.
--
-- Common: numbers, Boolean tests, lists and bits, with their lemmas.
-- Bitmap: the search for the first bit that is set, the loop of alloc_blockno and alloc_block.
-- Swap: os_final_project/code/kern/paging_utils.c.
--   Swap/Blocks: free_block_bitmap as a list of 32-bit words; util_init, alloc_blockno,
--     free_blockno. Swap/Blocks/Laws is about one call, Swap/Blocks/Runs about test_alloc_block.
--   Swap/Frames: reverse_lookup_pool as a function of the index and in_use_frames as an optional
--     index; on_page_alloc_success, remove_victim_page_fifo, remove_victim_page,
--     env_destroy_cleanup. Swap/Frames/Chains says what a linked list stands for, Queue relates
--     the list to a plain queue, Cleanup is about env_destroy_cleanup, and Relink about a frame
--     that is appended twice.
-- Pages: os_final_project/code/kern/pmap.c; the array of pages, the free list and the words of
--   memory, which are read as entries of page tables. page_alloc is take_page while a page is free;
--   page_free, page_decref, page_init. Pages/FreeList and Pages/Init are about the free list,
--   Pages/References about the counts.
--   Pages/Swap: the kernel's whole paging state, with page_alloc, handle_out_of_pages (evict_page),
--     page_to_disk and page_fault_intercept. Swap/Writes is about a page that goes to the disk,
--     RoundTrip about its way back, Evict about page_alloc without a free page.
--   Pages/Tables: pgdir_walk, boot_map_region, page_insert, page_lookup, page_remove and
--     mmio_map_region; Tables/Lookup, Insert, Replace and Create have the theorems. Pages/Walks
--     is about the entries of a table. Pages/Check: user_mem_check, with Check/Ranges.
-- Syscall: os_final_project/code/kern/syscall.c; the calls on pages and environments, with the
--   errors of envid2env handed on. Syscall/Grant is about sys_page_alloc, Share about sys_page_map.
--   Syscall/Ipc: sys_ipc_try_send and sys_ipc_recv, with Ipc/Delivery.
-- Fd: os_final_project/code/lib/fd.c; fd_alloc, fd_lookup, dev_lookup, fd_close and close over the
--   pages that the program has mapped, with the devices as an argument. Fd/Reuse is about a
--   descriptor that is closed.
-- Args: os_final_project/code/lib/args.c; argstart, argnext, argvalue and argnextvalue over the
--   list of arguments. Args/Options is about the flags of a command line.
-- Shell: os_final_project/code/user/sh.c; _gettoken (get_token) and gettoken over the memory that
--   holds a command. Shell/Scan is about the loops, Shell/Words about words as strings of their
--   own.
-- Console: os_final_project/code/kern/console.c; the input buffer with cons_intr and cons_getc, the
--   keyboard (Console/Keyboard) and the text screen (Console/Screen). Input is about the buffer as
--   a queue, Letters about letters from the keys to the buffer, Screen/Cells about cga_putc.
-- Pipe: os_final_project/code/lib/pipe.c; the ring, and devpipe_read and devpipe_write one action
--   at a time. Pipe/Steps lets a reader and a writer interleave; Ring is about the bytes in the
--   ring, Holds and Fifo about the invariant, Size about what devpipe_stat reports.
-- Cache: cs_2200/caching/prj5/cachesim.c; the cache as a list of lines, the clock and the
--   statistics. Cache/Address is about get_tag and get_index, Lines about one line, Access about
--   cache_access, Counts about the statistics, Init about cache_init.
-- Rtp: cs_2200/networking/prj7/rtp.c; checksum, packetize, and the loops of rtp_send_message and
--   rtp_receive_message (receive_packet is one round of the receiver). Rtp/Packets is about
--   packetize, Receive about one round, Transfer about both ends together.
-- Text: os_final_project/code/lib/string.c and printnum of os_final_project/code/lib/printfmt.c;
--   a pointer is the list of the bytes from it on. Text/Copies, Compare and Numbers.
--   Text/Convert: what one sequence of a format prints, and Text/Format: vprintfmt and vsnprintf,
--     of os_final_project/code/lib/printfmt.c, with Format/Buffer about what vsnprintf stores and
--     Format/Fuel about the rounds of vprintfmt.
-- Env: os_final_project/code/kern/env.c; the table of environments, the free list and the current
--   environment of one CPU. Env/Ids is about the ids, Lookup about envid2env, Alloc about
--   env_alloc. Env/Sched: os_final_project/code/kern/sched.c, with Sched/Choice about sched_yield.
-- Vm: cs_2200/memory/prj4; the machine, the processes, the TLB and the swap file (simulator-src).
--   Vm/Replace: get_free_frame, pagefault_handler and pagetable_lookup (student-src), with
--     Replace/Clock about the clock sweep and Replace/Faults about a page that goes or comes.
--   Vm/Access: tlb_lookup, mem_load and mem_store, with Access/Hits about the TLB.
--   Vm/Disk is about page_to_disk and page_from_disk.
-- Fs: os_final_project/code/fs/fs.c; the bitmap with alloc_block and free_block, and
--   file_block_walk, file_get_block, file_free_block and file_set_size on a disk of 32-bit words.
--   Fs/Blocks has the theorems. Fs/Files reads and writes a struct File on the disk, Fs/Bytes the
--   bytes of a block; Fs/Paths has dir_lookup, dir_alloc_file, walk_path, file_open and
--   file_create, with Paths/Names; Fs/Content has file_read and file_write, with
--   Content/RoundTrip.
--   Fs/Serv: os_final_project/code/fs/serv.c; the table of open files, serve_open, serve_read,
--     serve_write, serve_set_size and serve_stat. Serv/Ids is about serve_open and the ids of
--     open files, Serv/Session about a client that writes and reads.
-- Sched: cs_2200/scheduling/prj6/student.c; the ready queue, current[] and the handlers schedule,
--   idle, preempt, yield, terminate and wake_up. Sched/Wake is about the CPU that wake_up preempts.
-- Asm: cs_2200/pipeline/prj3/Assembly/assemble32.c; the lexer, the symbol table, first_pass and the
--   instruction words. Asm/Labels is about the labels, Asm/Words about the fields of a word.
--   Asm/Operands has the tables, hextoi, is_numeric and the readers of operands, and Asm/Second
--   second_pass, with Second/Agreement about the two passes and Second/Branch about beq.
-- The modules Tests apply the theorems at concrete states.
--
-- Bounds and fuel. The loops over in_use_frames run on fuel PHYS_FRAMES + 1: a list of distinct
-- frames has PHYS_FRAMES entries at most, and the walk takes one step more. printnum has num + 1
-- steps, and num decreases in each call. vprintfmt has a round for each character of the format
-- and one more, and each round reads one. The loops of _gettoken need more rounds than the text has
-- characters. The sweeps of Vm run on a round and one step more. The search loops count their
-- rounds down. Counters wrap around modulo 2 ^ 32 or 2 ^ 64 as in the
-- code, but for the statistics of Vm, which are not bounded; a long of strtol has 32 bits.
--
-- page_alloc calls itself again through handle_out_of_pages: fuel 1 is enough while a page is free
-- and 2 when a victim can be stored. The bits of an entry that the processor sets on an access or a
-- write are taken to be set already. The end of the bytes that are read from a file or written to
-- it is below 2 ^ 31. The positions of a pipe stay below 2 ^ 31, where off_t ends.
--
-- Not modelled: the start of the kernel (boot_alloc, mem_init and the entry tables) and the TLB of
-- the processor; failures of the disk under the paging; remove_victim_page_lru, which is never
-- called; traps, the console calls and the dispatch of system calls; the main function and the
-- files of the assembler; dup and the calls of a device in lib/fd.c; the block cache, the requests
-- that flush it and the file server's loop over IPC; the commands of the shell; the other devices
-- and start-up; several CPUs of the kernel; the threads of the CPU scheduler, whose handlers run
-- one after another; the sockets under the transfer, whose packets arrive changed or unchanged but
-- are not lost; the floating-point results of the simulators; the C library and the operating
-- system under all of these, which the code only calls.
pub mod Common
pub mod Bitmap
pub mod Shell
pub mod Swap
pub mod Cache
pub mod Rtp
pub mod Text
pub mod Env
pub mod Fd
pub mod Console
pub mod Vm
pub mod Fs
pub mod Sched
pub mod Pages
pub mod Pipe
pub mod Syscall
pub mod Args
pub mod Asm
