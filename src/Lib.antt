-- ===== src/Lib.antt =====
-- PeachOS: a model of the kernel's C code under src/, and the theorems that make its parts correct.
--
-- The kernel is a 32-bit protected mode kernel for one CPU. Memory comes from a block allocator
-- (heap.c, called through kernelheap.c). Paging maps a task's addresses to memory. A disk is read
-- sector by sector, through byte streams, by the FAT16 filesystem, which the table of open files
-- calls through a record of functions; `fopen` parses its path with the path parser. The keyboard
-- driver pushes characters into the buffer of a process, and tasks take turns in a linked list.
--
-- Heap: src/memory/heap/heap.c. `create`, `malloc`, `free` and their helpers keep the names of the code
--   without the prefix `heap_`. The table is a function from `int` indexes to bytes, since the code
--   does not keep its indexes inside the table.
-- CString, Memory: src/string/string.c and src/memory/memory.c. A pointer is the list of bytes from it
--   to the end of its buffer, and `none` is an access past that end.
-- PathParser: src/fs/pparser.c. The parts of a path are a list of texts.
-- Paging: src/memory/paging/paging.c. Memory is a function from addresses of words to words.
-- Keyboard: src/keyboard/keyboard.c and classic.c. Counters are 32-bit patterns.
-- Gdt: src/gdt/gdt.c. Segment descriptors.
-- Disk: src/disk/disk.c and streamer.c. What the controller sends for a sector is a parameter.
-- File: src/fs/file.c. The filesystem is a record of functions, a parameter.
-- Fat16: src/fs/fat/fat16.c. Names, cluster chains, reading, seeking and status. It runs on Disk, and
--   its functions are of the kind that File takes.
-- Fat16.Directory: the directories of src/fs/fat/fat16.c, `fat16_open` and `fat16_resolve`.
-- Fat16.Volume: `fat16_fs` of src/fs/fat/fat16.c, a filesystem of File. `Faults` is a parameter: what a
--   function answers where the code has undefined behaviour.
-- Task: src/task/task.c. The list of tasks, by their addresses, and the task that runs.
-- Idt: src/idt/idt.c. Descriptors, and the tables of callbacks and of system calls.
-- Elf: src/loader/formats/elfloader.c. Headers are read where they stand in memory.
-- Terminal: src/terminal/terminal.c. The video memory is a function from indexes to words.
-- KernelHeap: src/memory/heap/kernelheap.c. The heap with the memory that it hands out; Paging.Chunk
--   takes page directories from it.
-- Process: src/task/process.c. Processes by their addresses and their table, over all of the above.
-- Task.Memory: what src/task/task.c reads of a task's memory.
-- Isr80h: src/isr80h. The commands of system calls, over Process and Terminal.
-- Stdlib: programs/stdlib/src/peachos.c and string.c. Reading a line in a program, its tokens, and the
--   arguments of a command; Stdlib.Shell is the loop of programs/shell/src/shell.c. What the system
--   calls for memory and for running a program answer is a parameter.
-- Machine: src/idt/idt.c. The interrupts and system calls over the whole kernel; Machine.Calls leads
--   the numbers of system calls to the commands of Isr80h.
-- Boot: src/kernel.c. `kernel_init` and `kernel_main`; what they find in memory is a record.
-- Prelude: shared names, machine words, integers, arrays as lists, bits.
--
-- Loops over arrays and counts are structural recursion. Fuel bounds the tokens of a command
-- (1025: a token takes a byte of a buffer of that size), `parse_parts` (the number of bytes
-- from the path on: each call takes one at least), `read_loop` (`total / 512 + 2` calls: each but the
-- last ends a sector), `read_internal_from_stream` (`total + 1` calls: each but the last takes a
-- cluster, of at least one byte), and `count_items` (2 ^ 26
-- items: the stream stops before, where its position is no `int` any more).
--
-- Streams and files on the disk: an `int` is its 32-bit pattern. Where a position is negative or an `int`
-- overflows, the functions of Disk and of reading in Fat16 answer `none`, and their theorems bound them.
--
-- Not modelled: assembly and port input and output, the boot code, and of the programs in user space
-- `printf`, `itoa` and the string routines that repeat those of the kernel, and programs/blank.
-- `process_terminate` and `process_load_switch` of src/task/process.c print a line, which is left out: the
-- kernel's state holds no screen. What mounting the disk allocates is a parameter of Boot.
pub mod Prelude
pub mod Heap
pub mod CString
pub mod Memory
pub mod PathParser
pub mod Paging
pub mod Keyboard
pub mod Gdt
pub mod Disk
pub mod File
pub mod Fat16
pub mod Task
pub mod Idt
pub mod Elf
pub mod Terminal
pub mod KernelHeap
pub mod Process
pub mod Isr80h
pub mod Stdlib
pub mod Machine
pub mod Boot
