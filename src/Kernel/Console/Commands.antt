-- ===== src/Kernel/Console/Commands.antt =====
-- The commands of the console of src/kernel/kernel.c: `cmd_read_sect`, `run_new_process`, and the
-- loop of `kernel_main`.
pub mod Answered
pub mod Reading
pub mod Session
use c4os.Common.{
  ℕ, zero, suc, ◌+◌, ◌/◌, List, [], ◌∷◌, ◌++◌, Option, some, ◌==◌, if◌then◌else◌, ◌>>=◌, not,
}
use c4os.Stdlib.Bytes.{atoi, strcmp_equal}
use c4os.Tty.{Tty, out_string, set_text_attr, clear_screen}
use c4os.Tty.Format.{codes}
use c4os.Tty.Input.{Input, in_string}
use c4os.Devices.Timer.{Timer}
use c4os.Memory.Window.{Machine, temp_map_page, set_page_word}
use c4os.Memory.Phys.{alloc_phys_pages}
use c4os.Memory.Paging.{get_page_info}
use c4os.Memory.Virtual.{
  VirtMemoryBlockType, vmb_reserved, vmb_memory, vmb_io_memory, VirtMemoryBlock,
}
use c4os.Multitasking.Create.{System, run_image}
use c4os.Kernel.Files.{find_file, is_there_exe}
use c4os.Kernel.Console.{
  Disk, MemoryMapEntry, print, print_text, line, show_files, show_process_list, cmd_get_ticks,
  display_memory_map,
}

pub record Console : Type 0 where
  pub tty : Tty
  pub input : Input
  pub timer : Timer
  pub system : System

abbrev pub set_tty : Console → Tty → Console
set_tty c t = record c { tty = t }

-- The characters of a buffer before the first 0.
unfoldable pub text_of : ℕ → ℕ → (ℕ → ℕ) → List ℕ
text_of zero i buffer = []
text_of (suc n) i buffer =
    let rest = text_of n (i + 1) buffer in if buffer i == 0 then [] else buffer i ∷ rest

-- `printf("0x%x ", sector[i + j])` for `n` bytes from `i` on.
unfoldable pub show_bytes : (ℕ → ℕ) → ℕ → ℕ → Tty → Option Tty
show_bytes sector zero i t = some t
show_bytes sector (suc n) i t =
    print (codes "0x%x ") (sector i ∷ []) t >>= show_bytes sector n (i + 1)

-- The first 512 bytes of the buffer, as 32-bit words, go to the page in the window.
unfoldable pub copy_sector : ℕ → (ℕ → ℕ) → Machine → Machine
copy_sector zero buffer m = m
copy_sector (suc n) buffer m = set_page_word n (buffer n) (copy_sector n buffer m)

-- The key presses that interrupt, the rounds and the keys that `in_string` may take, what an
-- uninitialised buffer holds, the disk with its first file, the names of processes, and the lists.
module _ (arrivals : ℕ → List (ℕ × ℕ)) (lines fuel : ℕ) (stack : ℕ → ℕ) (disk : Disk)
    (files first_file_sector_number : ℕ) (process_name : ℕ → List ℕ)
    (process_list thread_list kernel_page_dir : ℕ) where
  -- `in_string(buffer, buffer_size)`, and the text that is then in the buffer.
  unfoldable pub read_line : ℕ → Console → Option (List ℕ × Console)
  unfolding in_string text_of
  read_line buffer_size c = in_string arrivals lines fuel buffer_size stack c.input c.tty >>= λ r.
      some (text_of buffer_size 0 r.1, record c { input = r.0; tty = r.2 })

  -- Four times 128 bytes, with a line read after each.
  unfoldable pub show_sector : (ℕ → ℕ) → ℕ → ℕ → Console → Option Console
  unfolding show_bytes read_line
  show_sector sector zero i c = some c
  show_sector sector (suc n) i c = show_bytes sector 128 i c.tty >>= λ t.
      print (10 ∷ line (codes "Press any key to continue...")) [] t >>= λ u.
      read_line 1 (set_tty c u) >>= λ r. show_sector sector n (i + 128) r.1

  unfoldable pub cmd_read_sect : Console → Option Console
  unfolding read_line show_sector atoi
  cmd_read_sect c =
      print (10 ∷ codes "Please type in the sector number [0 is default] > ") [] c.tty >>= λ t1.
      read_line 4 (set_tty c t1) >>= λ r.
      print (10 ∷ codes "Sector %d contents:" ++ 10 ∷ 10 ∷ []) (atoi r.0 ∷ []) r.1.tty >>= λ t2.
      (if disk.readable (atoi r.0)
        then show_sector (disk.byte_at (atoi r.0)) 4 0 (set_tty r.1 t2)
        else (print (10 ∷ codes "*** Error reading sector from disk") [] t2 >>= λ t3.
            some (set_tty r.1 t3)))
      >>= λ c2. print (line (codes "Done.")) [] c2.tty >>= λ t4. some (set_tty c2 t4)

  -- The sector of the file goes to a new page, from which a process is made.
  unfoldable pub load_image : ℕ → Console → Option Console
  unfolding alloc_phys_pages temp_map_page copy_sector run_image
  load_image sector c = alloc_phys_pages 1 c.system.machine >>= λ p.
      run_image process_list thread_list kernel_page_dir p.0 (record c.system {
        machine = copy_sector 128 (disk.buffer_word sector) (temp_map_page p.0 p.1);
      })
      >>= λ s. some (record c { system = s })

  unfoldable pub run_new_process : List ℕ → Console → Option Console
  unfolding find_file load_image
  run_new_process file_name c = print_text (line (codes "%s starting...")) file_name c.tty >>= λ t1.
      find_file disk.header_at disk.word_at files first_file_sector_number file_name >>= λ sector.
      load_image sector (set_tty c t1) >>= λ c2.
      print_text (line (codes "%s have started.")) file_name c2.tty >>= λ t2. some (set_tty c2 t2)

  -- A command that only shows something.
  abbrev show : (Tty → Option Tty) → Console → Option Console
  show f c = f c.tty >>= λ t. some (set_tty c t)

  -- `syscall` is the `test` command's interrupt, which is assembly.
  module _ (syscall : Console → Option Console) where
    unfoldable pub command : List ℕ → Console → Option Console
    unfolding cmd_read_sect cmd_get_ticks show_process_list show_files is_there_exe run_new_process
        strcmp_equal
    command buffer c =
        if strcmp_equal (codes "read") buffer
        then cmd_read_sect c
        else (if strcmp_equal (codes "ticks") buffer
            then show (cmd_get_ticks c.timer) c
            else (if strcmp_equal (codes "ps") buffer
                then show (show_process_list process_name process_list c.system.tasks.items) c
                else (if strcmp_equal (codes "ls") buffer
                    then show (show_files disk files first_file_sector_number) c
                    else (is_there_exe disk.header_at disk.word_at files first_file_sector_number
                          buffer
                        >>= λ there.
                            if not (there == 0)
                            then run_new_process buffer c
                            else (if strcmp_equal (codes "test") buffer
                                then syscall c
                                else show (print_text (line (codes "You typed: %s")) buffer) c)))))

    -- The `while` loop has no end: `n` of its rounds.
    unfoldable pub console_loop : ℕ → Console → Option Console
    unfolding read_line command
    console_loop zero c = some c
    console_loop (suc n) c =
        read_line 256 (set_tty c (out_string (codes "Command>") c.tty)) >>= λ r.
        command r.0 r.1 >>= console_loop n

abbrev pub type_number : VirtMemoryBlockType → ℕ
type_number vmb_reserved = 0
type_number vmb_memory = 1
type_number vmb_io_memory = 2

unfoldable pub block_loop : (ℕ → VirtMemoryBlock) → ℕ → ℕ → Tty → Option Tty
block_loop block zero i t = some t
block_loop block (suc n) i t =
    print (line (codes "type = %d, base = 0x%x, length = 0x%x"))
      (type_number (block i).type_ ∷ (block i).base ∷ (block i).length_ ∷ []) t
    >>= block_loop block n (i + 1)

-- What `kernel_main` shows before its loop, once the parts are set up.
unfoldable pub welcome : ℕ → ℕ → List MemoryMapEntry → ℕ → ℕ → Console → Option Console
unfolding set_text_attr clear_screen display_memory_map get_page_info block_loop
welcome boot_disk_id memory_map entries kernel_page_dir memory_size c =
    let info = get_page_info kernel_page_dir 0xb_8000 c.system.machine in
    let space = c.system.kernel_address_space in
    print (codes "Welcome to C4 OS!" ++ 10 ∷ 10 ∷ []) [] (clear_screen (set_text_attr 63 c.tty))
    >>= λ t1. print (line (codes "Boot disk id ------- %d")) (boot_disk_id ∷ []) t1 >>= λ t2.
        print (codes "Memory map --------- 0x%x" ++ 10 ∷ 10 ∷ []) (memory_map ∷ []) t2 >>= λ t3.
        display_memory_map entries t3 >>= λ t4.
        print (line (codes "kernel_page_dir = 0x%x")) (kernel_page_dir ∷ []) t4 >>= λ t5.
        print (line (codes "memory_size = %d MB")) (memory_size / 1024 / 1024 ∷ []) t5 >>= λ t6.
        print (codes "get_page_info(kernel_page_dir, 0xB8000) = 0x%x" ++ 10 ∷ 10 ∷ []) (info.0 ∷ [])
          t6
        >>= λ t7. block_loop space.block space.block_count 0 t7 >>= λ t8.
            print (10 ∷ []) [] t8 >>= λ t9.
            some (record c { tty = t9; system = record c.system { machine = info.1 } })
