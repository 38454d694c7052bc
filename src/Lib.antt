-- ===== src/Lib.antt =====
-- A model of parts of IKAROS, a small operating system kernel for i386 with its own C library, and
-- what was shown of it.
--
-- Parts. Memory.Region models the page allocator: the bitmap operations of
-- kernel/include/kernel/memory/memory_region.h, `ffs` of libc/include/strings.h, and
-- kernel/kernel/memory/memory_region.c. Memory.Map models kernel/kernel/memory/memory_map.c, and
-- Memory.Boot what kernel/arch/i386/kernel/boot/main.c does with it: the initial region, and the
-- pages of the kernel in it; Memory.Tags reads both from the tags of the boot loader, by the structs
-- of kernel/include/kernel/boot/multiboot2.h. Memory.Directory models
-- kernel/arch/i386/kernel/memory/paging.c, which builds the directory of the kernel. Memory.Paging
-- models the page tables of kernel/arch/i386/include/kernel/memory/memory_manager.h, which take
-- their pages from the allocator, and Memory.Mmio kernel/arch/i386/kernel/memory/mmio.c, which maps
-- the registers of devices by them. Heap models libc/stdlib/malloc.c, which grows by pages of the
-- allocator that it maps. Interrupts models kernel/arch/i386/include/kernel/boot/gdt.h,
-- kernel/arch/i386/include/kernel/irq/pic.h with kernel/arch/i386/kernel/irq/pic.c, and
-- kernel/arch/i386/kernel/irq/irq.c, with kernel/arch/i386/kernel/irq/timer.c and the calibration in
-- kernel/arch/i386/kernel/boot/initx86.c in Interrupts.Timer. Sched.Task, Sched.Ring and Sched.Wait
-- model the tasks (kernel/arch/i386/kernel/scheduler/task.c and task_switch.S), the circular list of
-- tasks (kernel/kernel/scheduler/scheduler.c) and the wait queues (kernel/kernel/scheduler/wait.c,
-- with the macro of kernel/include/kernel/scheduler/wait.h), and Sched.Sleep the sleep, in which the
-- timer wakes such a queue. Input.Keyboard models kernel/kernel/input/keyboard.c, which wakes a wait
-- queue for each keycode, and Input.AtKeyboard
-- kernel/arch/i386/kernel/drivers/keyboard/at_keyboard.c, which feeds it. Console models
-- kernel/kernel/console/console.c, which reads the parameters of its escape sequences with `atoi` of
-- Libc, Framebuffer kernel/kernel/console/fbconsole.c, which draws its cells, Vga the cursor of
-- kernel/arch/i386/kernel/drivers/console/vga_console.c, and Vga.Bochs
-- kernel/arch/i386/kernel/graphics/bochs_vga.c. Ide and Ide.Detect model the registers and the
-- detection of kernel/arch/i386/kernel/drivers/ide/pci_ide.c, the latter on the devices that Pci
-- found, and Acpi the search of kernel/arch/i386/kernel/acpi/acpi_x86.c, by `memcmp` of Libc, with
-- the checksum of kernel/kernel/acpi/acpi.c. Pci models kernel/kernel/pci/pci.c, with the reads of
-- the configuration space of kernel/include/kernel/pci/pci.h and
-- kernel/arch/i386/include/kernel/pci/pci_config.h. Libc models libc/string, libc/strings and
-- libc/stdlib/atoi.c. Base holds the shared names and lemmas: lists under native numbers, and the
-- digits of numbers.
--
-- Correspondence. A function keeps its name, less leading underscores and the prefix
-- `memory_region_`. A struct is a record, an enum a data type, a pointer a number with `NULL` as 0;
-- a chain of regions is a list. Tasks, wait entries and memory are functions from addresses.
-- Unsigned integers are natural numbers with the wrap-around written out where the source can wrap.
-- A byte array is a list of bytes or a function from offsets. What `malloc` returns is an argument
-- where it is called, and addresses of assembly and the font are arguments. The page tables are the
-- window at 0xFFC00000 in which they are seen, so that two tables in one frame are not told apart;
-- in Memory.Directory they are words of the physical memory. What happens while a task waits for a
-- key is a schedule of keycodes. A write or a read out of bounds is an outcome of its own: `fault`,
-- `wild` or `outside` in Memory, `none` in Console.
--
-- Fuel. A loop over a linked structure, or to a NUL, takes fuel, and `none` or `endless` is a loop
-- that has not ended. A ring needs one round for each member, a queue one more than its entries, a
-- text one for each byte and its NUL, `ffs` 32. The colours of an escape sequence need 32 rounds and
-- the value of a parameter 33, which the definitions fix, since the arrays have 32 bytes. A search
-- of a PCI bus takes fuel above the rank of its bus, where bridges lead to smaller ranks. A walk of
-- the free list takes a round for each entry; the growth of the heap one round for each page and one
-- more, which `malloc` fixes. The marking of the kernel takes one round for each region of the
-- chain. The search of the root pointer has 8193 addresses, and a call of `pci_ide_write` goes two
-- calls deep. What a drive answers with is a list, and `none` is a polling that has not ended on it.
-- A sleep takes a round for each tick and one more, and the calibration 20 doublings, from 2^12 to
-- 0.
--
-- Not modelled: the formatted output of the C library (snprintf.c is a copy of another library), the
-- initialisation calls of the boot code, and the assembly; of the modelled files, the allocation in
-- `fb_console_create_lut`, the checksums of `CONFIG_DEBUG_MALLOC`, and functions that only call
-- others or are not called. There is one processor, and a spinlock that is held when it is taken
-- with interrupts off is never free again.
pub mod Base
pub mod Libc
pub mod Memory
pub mod Heap
pub mod Interrupts
pub mod Sched
pub mod Input
pub mod Console
pub mod Framebuffer
pub mod Vga
pub mod Pci
pub mod Ide
pub mod Acpi
