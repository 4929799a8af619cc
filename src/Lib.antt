-- ===== src/Lib.antt =====
-- A 64-bit kernel for the Raspberry Pi 3B+: its data structures, its scheduler, its memory and its
-- services, with paths from the root of the repository.
--
-- The parts and how they interact. Interrupts (irq.c) run handlers, among them the timer tick of
-- the scheduler (sched.c), which the timer registry (timer.c) provides. The scheduler keeps its
-- tasks on lists (include/list.h), and semaphores (semaphore.c) put tasks to sleep on its
-- waitflags. Pipes and the console move bytes through ring buffers (ringbuf.c). Drivers take their
-- pins as exclusive sets (gpio_set.c), and their memory from the allocator (kmalloc.c), whose
-- bitmaps are in include/bitmap.h and include/bitword.h. The file system (fs/fat32/fat32.c) reads
-- a block device. The string library (lib/stringlib) serves all of them.
--
-- The files:
-- - Base: shared names, Boolean tests, lists measured by native numbers, slices, counts of
--   elements, the laws of `&` and `|`, and the error codes of include/error.h.
-- - Ringbuf: ringbuf.c. The pointers are offsets from `buf`; `ringbuf_read` and `ringbuf_write`
--   keep the branches of the source as functions of their own. Window reads the ring as a sequence
--   of bytes.
-- - ListHead: include/list.h. Two maps from addresses hold the links of all nodes, so that
--   aliasing is that of the program. Linked and Ring say which sequence of nodes hangs on a head.
-- - Sched: sched.c on one core. A queue is the sequence of its nodes; `schedule` is the
--   composition of the functions that the source calls. Timers and FlagLoop give each scan in
--   closed form.
-- - Tasks: the creation of tasks in sched.c.
-- - Semaphore: semaphore.c. A critical section under the lock is one step; Steps interleaves
--   tasks.
-- - Timer: timer.c.
-- - Irq: irq.c.
-- - GpioSet: gpio_set.c.
-- - Kmalloc: kmalloc.c with include/math.h, include/bitword.h and include/bitmap.h.
-- - DmaMemory: dma_memory.c and include/memory/chunk.h, with the lists of ListHead.
-- - Strings: lib/stringlib/stringlib.c on a memory of bytes.
-- - Tokens: lib/parse_string.c. Scans compares each of its scans with a split into words.
-- - Numerals: lib/stringlib/strtol.c. Each case of its switch is a function, with the walk forward
--   over the digits and the walk backward.
-- - Printing: lib/stringlib/sprintf.c. The context of a call is a record with the memory in it; a
--   macro that changes it is a function. Fields has the printers, Format the scan of a field, Loop
--   the loop over the fields, and Truncated a number in a room that may be too small.
-- - Mmu: arch/armv8/mmu.c, with the bit fields of include/bits_api.h. Walk is the translation of the
--   architecture, to compare the tables with.
-- - Pipe: pipe.c, over Ringbuf and the flags of Sched.
-- - Rectangle: rectangle.c. Words is about its arithmetic, Segments about one direction, and Regions
--   about the two together.
-- - Cmdrunner: cmdrunner/cmdrunner.c, with the words of Tokens. Input is what a character does; Typing
--   is about the line, History about the lines before, and Valid and Reached about all indices.
-- - Fat32: fs/fat32/fat32.c, include/fs/fat32.h and the getters of include/mem_access.h. Sectors is
--   about files, Dentry about the entries of a sector, Names about their names, and Directory about
--   the walk over a directory and the lookup of a path.
--
-- Numbers and addresses. Numbers are natural numbers, and an operation on a machine word that can
-- wrap has its `% 2 ^ w`. An `int` that can be negative is its bit pattern. `char` is unsigned, as
-- the target has it. Addresses do not wrap. `none` is a panic, a write outside of an array that the
-- source declares, or a loop that never ends, and the definition says which: `memcpy` of 2^32 bytes or
-- more and a backspace at the end of a full command line are such cases.
--
-- Fuel. `halve` gets the number itself, which is at least the number of its halvings. The walk
-- over a file gets one round per sector and one more, since each round visits at least one sector.
-- A list is walked with one round per node and one more. The loops of the string library that run
-- to a terminator take the fuel as an argument, and their theorems ask for more of it than the
-- string is long. The walk over a directory takes the fuel for its chain of clusters as an argument;
-- a path gets one round more than it has bytes, and each round takes an element of it away. All
-- other loops are structural. A loop that runs out of fuel is `none` or says
-- so at its definition.
--
-- What comes from outside is a parameter: the counter of the processor and the time at which a
-- task runs again (Sched), what a stack holds before a flag stands there (Semaphore), the code of
-- interrupt handlers (Irq), the block device (Fat32), the names
-- of the commands (Cmdrunner), the addresses of the linker (Mmu, DmaMemory),
-- the order of the descriptors in memory (Kmalloc).
--
-- Not modelled: the barriers, caches and locks, which a single core does not observe
-- other than as atomic sections; the registers and the assembler of arch/armv8; the contexts of
-- tasks; what only prints; the drivers, the USB and SD stacks, and the video code, which are
-- sequences of register accesses or ports of code of other projects.
pub mod Base
pub mod Ringbuf
pub mod ListHead
pub mod Sched
pub mod Tasks
pub mod Semaphore
pub mod Timer
pub mod Irq
pub mod GpioSet
pub mod Kmalloc
pub mod DmaMemory
pub mod Mmu
pub mod Strings
pub mod Tokens
pub mod Numerals
pub mod Printing
pub mod Fat32
pub mod Cmdrunner
pub mod Pipe
pub mod Rectangle
