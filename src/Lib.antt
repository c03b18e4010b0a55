-- ===== src/Lib.antt =====
-- neodymium, a kernel for 32-bit x86, as a model of its C code.
--
-- The parts and the files that model them, with paths from the repository's root:
--   Base: tests on numbers, machine words, arrays, counted loops and bit operations.
--   Boot: src/boot/boot.c, the walk over the Multiboot2 tags, and Boot/Efi, src/boot/efi_boot.c.
--   Pmm: src/kernel/pmm.c, the bitmap of physical pages; Pmm/Init reads the memory map.
--   Heap: src/kernel/heap.c, malloc and free over a free list in memory. Heap/Blocks is the list of
--     blocks that Heap/Chain finds in memory. Mapping a page is a parameter of the heap.
--   Vmm: src/kernel/vmm.c, page directories and tables in the memory that Pmm hands out. Vmm/Init is
--     the initial mapping, and Vmm/Clone the copy for a fork.
--     Vmm/Tree shows that a mapping leaves the rest of a space alone. The tables and pages are read and
--     written at their physical addresses, which the kernel reaches through the current directory:
--     Vmm/Tree has as `IsIdentity` that the directory maps physical memory at its own addresses.
--   Elf: src/kernel/elf.c, the loader, over Vmm. Elf/Access is the memory as the processor reaches it
--     through the page tables; Elf/Pages, Elf/Copy, Elf/Segment and Elf/Program follow the loops.
--   Sched: src/kernel/sched.c, the ring of tasks, the choice of the next one and the tick.
--     Sched/Memory is an interface of the heap, the address spaces and the ELF loader, and
--     Sched/Kernel has the functions that need it; Sched/Kernel/Reach is the relation of the steps.
--   Syscall: src/kernel/syscall.c, over the scheduler and the keyboard.
--   Ps2: src/drivers/ps2.c, the scan code decoder and its ring buffer.
--   Framebuffer: src/drivers/framebuffer.c, the pixels, the font, and the search for the card over
--     an interface of the port instructions.
--   Fbcon and Vga: src/drivers/fbcon.c and src/drivers/vga.c, the two text consoles.
--   Printf and Panic: src/kernel/printf.c and src/kernel/panic.c. Panic/Screen draws on the framebuffer,
--     and Panic/Report prints on the terminal.
--   Echo: the terminal, which composes the keyboard, the console, the framebuffer and the serial port
--     as the loops over the keys in src/kernel/kernel.c and src/kernel/sched.c do.
--   Ports and Serial: the byte ports as an interface, and src/drivers/serial.c over it.
--   Gdt: the descriptors of src/kernel/gdt.c and src/kernel/idt.c. Interrupts: the rest of
--     src/kernel/idt.c, the tables of handlers and `isr_handler`.
--   Cmos: src/kernel/cmos.h, the clock.
--
-- A C function `pmm_alloc_page` is `Pmm.alloc_page`: the prefix is the module. A function takes the
-- state of its part, a record with the file's static variables, and returns the new state beside
-- its result. An `unsigned int` is a natural number below 2 ^ 32, and arithmetic on it wraps where
-- the source's does. A null pointer is address 0.
--
-- Bounds and fuel: a `for` loop with a fixed count is `for_below` or recursion on the rounds left. The
-- walks of pointers (the memory map, the free list, the ring of tasks) are on fuel, where `none` is a
-- run that is out of it. Their theorems ask for one round more than the list has elements, and
-- then the run returns. The digit loops are bounded by their buffers, where `none` is an overrun, and
-- return for every word. The loop over the pages of a segment has fuel for each page of 32-bit
-- addresses, and the loop over the program headers for each count of 16 bits.
--
-- The reads of a port that wait for a device are on fuel, and their theorem asks for one more read
-- than the device is busy for, which its hypotheses say.
--
-- Not modelled: the loads of control registers, the assembly stubs and the context switch, and the
-- start of `kernel_main`, which calls the other parts in order and draws the first screen. Of the
-- address spaces the handler of page faults is left out. Where a pointer may be bad (the bytes of an
-- image, the strings of the system calls, the frames of a panic) the fault is a result of its own.
pub mod Base
pub mod Boot
pub mod Pmm
pub mod Heap
pub mod Vmm
pub mod Sched
pub mod Ps2
pub mod Syscall
pub mod Framebuffer
pub mod Fbcon
pub mod Vga
pub mod Printf
pub mod Panic
pub mod Gdt
pub mod Interrupts
pub mod Cmos
pub mod Elf
pub mod Echo
pub mod Ports
pub mod Serial
