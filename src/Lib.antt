-- ===== src/Lib.antt =====
-- Ulmix: an operating system for i686. This library models the parts of its C code that keep state or
-- decide something, and proves what makes them correct.
--
-- The parts and their files (paths from the repository's root):
--   Heap      kernel/memory/heap.c, kmalloc.c, kfree.c: setup_heap(), kmalloc(), kfree() and their
--             helpers keep their names. Headers lie at addresses; Heap.Blocks reads the chain of headers
--             as a list of blocks.
--   Mmap      kernel/memory/mmap.c: the user memory regions of an address space.
--   Sync      kernel/sched/sync.c: the mutex, and tasks that are interleaved.
--   Frames    arch/i686/pfalloc.c: reference counts of page frames.
--   Paging    arch/i686/mmhelper.c, paging.c: page tables, mm_map(), mm_physical() and setup_paging().
--   Sysinfo   kernel/sysinfo.c: cpu_supports(), which setup_paging() asks for PAE, and print_cpu_flags().
--   Devices   kernel/devices.c, kernel/fs/partscan.c: tables of devices, partitions of a disk.
--   Syscall   kernel/syscall.c, the entry in arch/i686/syscall.s, the handlers in kernel/sched/process.c,
--             kernel/fs/file.c, kernel/fs/stat.c, and the callers in userspace/stdlib/syscalls.c.
--   LibC      libc/string.c: memory and string functions on a memory of bytes; the messages of its
--             strerror() and of that of userspace/stdlib/string.c.
--   Vfs       kernel/fs/vfs.c: path names, read from memory, and the tree of directories; a filesystem that
--             loads the entries of a directory is a parameter.
--   Pci       kernel/bus/pci.c, kernel/bus/pci_cfgspace.c: the configuration space behind its two ports, and
--             the scan for devices.
--   Vga       drivers/vga.c: the text screen; its scrolling uses memcpy() of LibC.
--   Ext2      kernel/fs/ext2.c: the structures on the disk, inodes, directories and mounting.
--   Ata       drivers/ata.c: the driver of the IDE controller, on ports that are a parameter.
--   Kprintf   kernel/kprintf.c: the formats of kprintf(), and panic().
--   UserC     userspace/stdlib/string.c, userspace/stdlib/printf.c: itoa(), strcat(), strsize() and sprintf() of
--             the user programs.
--   Shell     userspace/ushell/ushell.c: reading a command line, and what main() does with it.
--   Programs  userspace/init, coreutils, hexdump, netutils, with crt0.c, stdio.c, dirent.c, malloc.c, libgen.c and
--             wait.c of userspace/stdlib: each program is the requests that it makes.
--   Gdt       arch/i686/gdt.c, gdt.h: the segment descriptors.
--   Fs        kernel/fs/fs.c, kernel/fs/mount.c: the table of filesystems, and do_mount(), which goes through
--             Devices for the partition and through Vfs for the directory.
--   Interrupt kernel/interrupt.c, arch/i686/idt.c: the table of handlers, the descriptors of the vectors, and
--             pic_init(), against a model of the two interrupt controllers.
--   Serial    arch/i686/debug.c: the serial port to which kprintf() copies its text.
--   Boot      arch/i686/ksetup.c, kernel/main.c, kernel/iosetup.c: ksetup(), kmain() and iosetup(), from the
--             boot loader to the mounted root directory and the last call, setup_heap() at 3 GB.
--   Exception kernel/exception.c, arch/i686/exception.c, arch/include/exception.h: exc_handler() and its reports, as
--             calls of kprintf().
--   Memscan   arch/i686/memory.c: memscan(), on the map that the boot loader left in memory.
--   Base, Errno   shared: lists, words of 8 and 32 bits, memory, tables of pointers, error numbers.
--
-- State and numbers. An operation takes the state it changes and returns it with its result. The heap's
-- operations return an outcome that also says fault, hang, panic or out of fuel (a fault stands for any
-- access where no header is, also where the code reads other bytes as one); a write through a bad
-- pointer is a value of the result elsewhere (wild, overflow, overrun, undefined, wild_jump). Words wrap
-- around where the code's do. Addresses of LibC and Vfs are natural numbers and do not wrap. The
-- directories are one store that Vfs, Fs and Ext2 share; the root is the one at address root_dir.
--
-- Fuel. kmalloc() has one round for each block and one more; a loop that runs to a NUL has as many rounds
-- as the string has characters and one more, and namei() as many as the path; utoa() needs ten digits for
-- 32 bits. The loop over a block of a directory needs a round for each 4 bytes, and the driver polls a
-- drive as often as that can say that it is busy, and once more. kmain() has the fuel of the driver and of
-- the directories. memscan() has a round for each entry of the map and one more. hexdump needs a round for
-- each 16 bytes of a file and one more. Each theorem says what is enough. kfree() and the loops over
-- tables need none.
--
-- How the parts meet. ksetup() of Boot calls setup_gdt(), setup_idt(), memscan() and setup_paging(),
-- then kmain(), which calls setup_fs(), registers the drivers and calls setup_pci() of Pci, which probes
-- the controllers with ata_pci_probe() of Ata; then it mounts the first partition with do_mount() of Fs
-- and ext2_mount() of Ext2, and calls setup_heap() at an address that the tables of Paging do not map.
-- do_mount() calls get_hdstruct() of Devices, whose partitions come from gendisk_partscan(), then
-- probe_fs(), then namei() of Vfs. The reads that Ext2 relies on are those that Ata.Read gives of a
-- drive; ata_pci_probe() registers its disks in Devices. mm_mk_region() takes what kmalloc() returned as
-- an argument. Frames and Paging have the frame size of 4096 in common. kmalloc() and kfree() take the
-- mutex of Sync, as one task sees it. The programs run on any kernel that answers their requests, and on
-- that of Syscall; coreutils copies and compares names with the functions of LibC.
--
-- Parameters. The answers of the disk (Devices, Ext2), of the PCI ports (Pci), of the ports of the IDE
-- controller (Ata), of the serial port (Serial) and of a filesystem (Vfs, Fs); the addresses that
-- kmalloc() gives, and what its memory holds (Ext2, Ata, Paging); the answer of CPUID (Sysinfo); the
-- kernel under a program (Programs); the memory behind the table of system calls (Syscall).
--
-- Not modelled: what only prints (heap_dump(), print_file_tree()), machine code and control registers (the
-- boot code; setup_paging() gives the values that it writes), and getwd() and get_current_dir_name().
-- Memory from kmalloc() has no contents here, and mm_physical() reads the tables of the current address
-- space as they are passed.
pub mod Base
pub mod Heap
pub mod Errno
pub mod Devices
pub mod Sync
pub mod Serial
pub mod Memscan
pub mod Mmap
pub mod Frames
pub mod Paging
pub mod Syscall
pub mod Sysinfo
pub mod Vfs
pub mod Pci
pub mod Programs
pub mod Vga
pub mod Fs
pub mod Interrupt
pub mod Ext2
pub mod LibC
pub mod Ata
pub mod Kprintf
pub mod UserC
pub mod Shell
pub mod Gdt
pub mod Exception
pub mod Boot
