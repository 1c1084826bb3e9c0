-- ===== src/Lib.antt =====
-- INDOMINUS OS: models and proofs of the kernel's core, under indo-kernel/src.
--
-- Parts of the program and the files that model them. The kernel is one program that shares its
-- state through statics under locks; each model passes the state it needs explicitly, one call after
-- the other, as the locks order them.
-- * Physical memory, memory/pmm.rs: Pmm (bitmap, reference counts, alloc_frame, free_frame, incref,
--   decref, mark_region_used), Pmm/Init (init from the UEFI memory map of libs/indo-core). The statics
--   are the record Pmm; a failed assert is an error value.
-- * Pipes, process/pipe.rs and what the pipe branches of sys_read and sys_write in syscall/mod.rs do to
--   the ring: Pipe. Their checks of the descriptor, and the state that they give to a process that
--   blocks, are left out. The table of pipes of process/mod.rs: Pipe/Table.
--   The counters nread and nwrite wrap at 2^32 as in the code.
-- * Processes and scheduling, process/process.rs and process/scheduler.rs: Process (what the scheduler
--   sees of a process), Sched (the table, the choice of the next process, switch_next), Sched/Deliver
--   (deliver_signal with the stacks it writes), Sched/Switch (forced switches, kills, ticks),
--   Sched/Spawn (spawning, children, reaping); for proofs, Sched/Running (which process runs) and
--   Sched/Kinship (generations of slots). The table is a function of the slot.
-- * Wake-ups, process/mod.rs: Wake (keyboard_wake, wake_wait_for_child, send_signal_to_fg), which
--   reads the pipes and changes the scheduler's table.
-- * ELF loading, elf/mod.rs: Elf (headers and segment checks), Elf/Load (load_elf, which takes frames
--   from the physical memory and writes their bytes, and the validators). vmm::map_page goes through
--   the x86_64 crate and is a parameter.
-- * Paths, resolve_cwd and normalize_path of syscall/mod.rs: Paths, on lists of bytes.
-- * The terminal, keyboard.rs and tty.rs: Terminal (scan codes, signal characters, the line buffer and
--   its reader), which sends signals through Wake.
-- * The virtual file system, vfs/mod.rs and vfs/ramfs.rs: Vfs (mount points and operations on paths)
--   and Vfs/Ramfs (directories, files and open files). What the code shares by reference lies in a
--   store under an id.
-- * The initial ramdisk, initrd.rs: Initrd, which fills the file system through Vfs.
-- * File descriptors, sys_pipe, sys_close, sys_dup and sys_dup2 of syscall/mod.rs: Fds, on the pipes of
--   Pipe/Table.
-- * Waiting for children, sys_waitpid of syscall/mod.rs: Waitpid, on the scheduler's table.
-- Prelude holds the shared names: Boolean tests, lists, bytes, arrays, results and machine words.
--
-- Loops over a fixed range are recursion on the number of rounds, which is the range's length. Two
-- loops run on fuel, the number of turns allowed, and give no result when it runs out: read_file, for
-- which more reads than the file has bytes are enough, and load_initrd, for which more turns than the
-- archive has bytes are. Unsigned arithmetic wraps where the code's can, as in a build without
-- overflow checks. Interrupts, the locks themselves, serial output and the debug prints are not
-- modelled. Also left out are the drivers (AHCI, PCI, ACPI, APIC, PIT, serial), the page tables, the
-- heap, FAT32 and the disks mounted through it, the other system calls, the boot loader and user
-- space: they are hardware access, or state that the modelled parts do not read.
mod Prelude
pub mod Pmm
pub mod Pipe
pub mod Process
pub mod Sched
pub mod Elf
pub mod Wake
pub mod Paths
pub mod Terminal
pub mod Vfs
pub mod Initrd
pub mod Fds
pub mod Waitpid
