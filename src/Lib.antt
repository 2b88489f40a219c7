-- ===== src/Lib.antt =====
-- c4os, a small operating system for 32-bit PCs: a model of its kernel, drivers and library in
-- src/, with theorems on what they compute.
--
-- The program. The kernel (src/kernel) keeps physical pages, page tables and threads; the drivers
-- (src/drivers) serve the screen and the keyboard, the DMA controller and the floppy disk; all use
-- src/lib/stdlib.c. The timer interrupt counts ticks and switches threads; the keyboard interrupt
-- fills a buffer that the console reads; page tables get their frames from the physical allocator.
--
-- The files.
--   Common        Boolean tests, lists over the native numbers, machine words and bit laws.
--   Ring          doubly linked rings in two link functions: what writes to the links do to them.
--   Stdlib        src/lib/stdlib.c. Mutex: mutex_get, mutex_release; Lists: list_init,
--                 list_append, list_remove on a heap of fields by address (Lists/Rings proves);
--                 Bytes: memcpy, memset_word, isspace, isdigit, atoi, strcmp; Strings: memchr
--                 and the functions that call it, strlen, strcpy, strncpy, strchr.
--   Memory        src/kernel/memory_manager.c. Window: physical memory and temp_map_page; Phys:
--                 alloc_phys_pages, free_phys_pages (Phys/Blocks is the view as a list of blocks,
--                 Phys/Refine, Phys/Restored, Phys/Joined, Phys/Overlaps and Phys/Kept
--                 prove); Paging: map_pages,
--                 get_page_info (Paging/Runs is on runs of pages); Virtual: the choice of an
--                 address and the table of blocks, with alloc_virt_pages and free_virt_pages in
--                 Virtual/Alloc (Virtual/Allocated puts the parts together); Boot:
--                 init_memory_manager.
--   Tty           src/drivers/tty.c. The screen here, Format: int_to_str, uint32_to_str, printf
--                 (Format/Pieces proves), Keys: keyboard_interrupt, in_scancode, Scancodes:
--                 src/include/scancodes.h, Input: in_char, in_string, Setup: init_tty.
--   Multitasking  switch_task of src/kernel/multitasking.c and the first registers of a thread;
--                 Tables: init_page_tables (Tables/Made proves); Create: create_thread, run_image, init_multitasking.
--   Devices       src/kernel/timer.c, src/drivers/dma.c and src/drivers/floppy.c, with the port
--                 writes kept in a list and the values of port reads as a parameter;
--                 Registers: the numbers of src/include/dma.h, of src/include/timer.h and of the
--                 floppy controller.
--   Kernel        Interrupts: set_int_handler, irq_handler, syscall_handler of
--                 src/kernel/interrupts.c and syscall.c, over the states of the parts; in
--                 Interrupts/Events the abstract view of those states, and its steps under
--                 interrupts and reads of the keyboard (Simulation and Fairness prove); in
--                 Interrupts/Table init_interrupts; Main: kernel_main; Files:
--                 find_file and get_file_data_pointer of src/kernel/kernel.c; Console: what the
--                 console shows, show_files, show_process_list, display_memory_map, and in
--                 Console/Commands its commands, cmd_read_sect, run_new_process, and its loop
--                 (Commands/Session is what lines that are typed ahead come to); Disks:
--                 init_floppy, alloc_dma_buffer, get_file_info_by of src/kernel/listfs.c.
--   MakeListfs    make_listfs/make_listfs.c: alloc_disk_block, get_disk_block, init_disk_map and
--                 check_options; Files: write_block, store_file_data; Directories: process_dir
--                 (Files/Room and Directories/Returns count the blocks that they need);
--                 Options: get_commandline_options; Header: init_listfs_header, store_disk_map,
--                 store_listfs_header, main.
--   Tests         the theorems at concrete states.
-- A C function is the definition of the same name: it takes the state as its last argument and
-- returns the new one. A field of a structure that is reached by pointers is a function of the
-- address. 32-bit and smaller numbers wrap where the code computes them.
--
-- Bounds and fuel. A ring of free blocks is searched with 2 ^ 20 + 1 rounds: blocks are whole
-- pages below 4 GB. The ring of threads is searched with 2 ^ 20 rounds: a thread has a page of its
-- own. A number has at most 32 digits and gets 64 rounds, the room of num_buffer. The search for a
-- free disk block gets a round for each block and one more. in_char takes a number of rounds, one
-- for each scancode that waits and one more, and in_string a number of characters; store_file_data
-- takes the number of its lists of blocks and one more, the boot loader one for each read, and
-- show_files the number of files. The console's loop has no end, and takes a number of lines. A
-- directory is what readdir, stat and fopen say of it, and has no fuel. Waits for the timer and for
-- the floppy interrupt end when the device says so, and take their fuel as an argument. `none` also
-- stands for a fault: a null list, a division by zero, a lock never freed; and for the exit of
-- make_listfs on a full disk, or where one of its buffers is too small for what it writes.
--
-- What is not C is a parameter: the address that the assembly of memchr leaves, the handlers of
-- the interrupts, what the BIOS and the linker give, the bytes of the disk, the answers of the
-- devices, the output of the system call.
--
-- Not modelled. The names of processes, which strncpy writes, are what a parameter says; usage,
-- fopen and fclose of make_listfs/make_listfs.c are left out, and so are load_sector of
-- src/kernel/kernel.c, which does nothing, and get_current_esp there. memset and memcmp of
-- src/lib/stdlib.c are inline assembly, and the boot code, the entry code of the interrupts and
-- the programs are assembly, which has no translation here.
pub mod Common
pub mod Ring
pub mod Stdlib
pub mod Memory
pub mod Tty
pub mod Multitasking
pub mod Devices
pub mod Kernel
pub mod MakeListfs
pub mod Tests
