-- ===== src/Boot/Early.antt =====
-- arch/i686/ksetup.c: ksetup(), from the boot loader to kmain().
use ulmix_i.Base.{ℕ, Option, none, some, List}
use ulmix_i.Base.Memory.{Mem}
use ulmix_i.Heap.{Kheap, Outcome, setup_heap}
use ulmix_i.LibC.{bzero, memcpy}
use ulmix_i.Vga.{Vga}
use ulmix_i.Vfs.{Dirs}
use ulmix_i.Gdt.{GdtEntry, Tss, setup_gdt}
use ulmix_i.Interrupt.{Idt, setup_idt}
use ulmix_i.Memscan.{memscan}
use ulmix_i.Sysinfo.{Sysinfo}
use ulmix_i.Paging.{Physical, at, outside}
use ulmix_i.Paging.Setup.{Memory, Paged, translate, setup_paging}
use ulmix_i.Ext2
use ulmix_i.Ext2.{Ext2Fs}
use ulmix_i.Boot.{Machine, Started, final_heap, kmain}

-- What the boot loader and the linker leave: the addresses of data and of entries, the map of the memory; and what
-- the processor holds and answers. `memory` is that which setup_paging() gets from the early heap.
pub record Loaded : Type 0 where
  pub bss_start : ℕ
  pub bss_length : ℕ
  pub bss_end : ℕ
  pub mmap : ℕ
  pub mmap_length : ℕ
  pub tss : ℕ
  pub exc0 : ℕ
  pub exc_len : ℕ
  pub irq0 : ℕ
  pub irq_len : ℕ
  pub syscall_entry : ℕ
  pub idt : Idt
  pub cpuid : Option (ℕ × ℕ)
  pub sysinfo : Sysinfo
  pub memory : Memory
  pub cr0 : ℕ
  pub cr4 : ℕ
  pub mb : ℕ
  pub multiboot : ℕ
  pub heap : Kheap

-- What becomes of kmain(): the final heap is there; the processor faults at an address; or kmain() has stopped before.
pub data Booted : Type 0 where
  running : Dirs Ext2Fs → Outcome (Unit {0}) → Booted
  heap_fault : Dirs Ext2Fs → (address : ℕ) → Booted
  stopped : Started → Booted

-- setup_heap() writes a header at its first address, which leads to physical memory or does not.
pub setup_heap_at : Physical → Dirs Ext2Fs → (start_addr max_size : ℕ) → Kheap → Booted
setup_heap_at (at p) dirs start_addr max_size heap =
    running dirs (setup_heap start_addr max_size heap)
setup_heap_at outside dirs start_addr max_size heap = heap_fault dirs start_addr

-- The last call of kmain(), with paging on.
pub call_setup_heap : Paged → Started → Booted
unfolding setup_heap_at
call_setup_heap paged (final_heap dirs start_addr max_size heap) =
    setup_heap_at (translate paged.current_mm start_addr) dirs start_addr max_size heap
call_setup_heap paged r = stopped r

-- How ksetup() ends: in kmain(), with the tables of the processor and the early heap as it is set up; in the panic
-- without PAE; or in a map without end.
pub data Setup : Type 0 where
  started : List GdtEntry × Tss → Idt → (early : Outcome (Unit {0})) → Paged → Booted → Setup
  no_pae endless_map : Setup

abbrev pub after_paging :
    List GdtEntry × Tss → Idt → Outcome (Unit {0}) → Option Paged → Started → Setup
after_paging gdt idt early none r = no_pae
after_paging gdt idt early (some paged) r = started gdt idt early paged (call_setup_heap paged r)

-- sizeof(struct mb_struct)
abbrev pub mb_size : ℕ
mb_size = 88

-- The memory with .bss cleared and the data of the boot loader copied; `mmap` and `mmap_length` are fields of them.
abbrev pub saved : Loaded → Mem → Mem
saved l m = memcpy (bzero m l.bss_start l.bss_length) l.multiboot l.mb mb_size

-- The early heap is that from which `memory` comes; `heap` is what kmain() finds.
pub ksetup :
    {W : Type 0}
    → (fuel rounds : ℕ) → (load : ℕ → Dirs Ext2Fs → Dirs Ext2Fs) → Machine W
    → Loaded
    → Mem
    → (path : ℕ) → Kheap
    → Vga
    → Dirs Ext2Fs
    → Setup
unfolding call_setup_heap
ksetup fuel rounds load machine l m path heap screen dirs =
    elim (memscan rounds (saved l m) l.mmap l.mmap_length) [
      | none ↦ endless_map
      | some (ram_size, m') ↦
          after_paging (setup_gdt l.tss)
            (setup_idt l.exc0 l.exc_len l.irq0 l.irq_len l.syscall_entry l.idt)
            (setup_heap 0x00001 0x80000 l.heap)
            (setup_paging l.cpuid l.sysinfo l.memory l.bss_end ram_size l.cr0 l.cr4).0
            (kmain fuel load machine m' path heap screen dirs)
    ]
