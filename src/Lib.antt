-- ===== src/Lib.antt =====
-- The verification library of osldr, a second-stage boot loader for x86 in C.
--
-- The program runs without an operating system. `bmain` of src/main.c sets up the heap, asks the BIOS for
-- the memory map (src/mem.c), reads boot.ini (src/config.c) through the I/O manager (src/io.c), shows the
-- boot menu (src/main.c), loads the chosen image (src/loader.c) into memory that src/mem.c gives, and
-- starts it (src/multiboot.c, src/asm.s). The I/O manager finds partitions, caches sectors, mounts a
-- file system (src/fat.c, src/raw.c) and reads through the drive functions (src/drive.c) by INT 13h.
--
-- The files:
--   Base        names shared by all: tests on numbers, lists, integers, machine words and bit masks.
--   Allocator   the interface of the heap, `malloc` and `free`, which the clients take as an argument.
--   Heap        src/stdlib.c: HeapInit, malloc, free and realloc. A `HEAPBLOCK` is its address; the fields
--               `Size` and `PrevSize` are functions of the address, flags included, and `HeapList` is the
--               list of addresses in its order, so that the fields `Prev` and `Next` are left out. Blocks
--               has the abstract view, a list of blocks; Malloc, Free, Widen and Init are about the single
--               operations, and Life, Safe and Full about all calls that a program makes.
--   Sectors     runs of sectors of a disk, for Drive and Io.
--   Mem         src/mem.c: the list of free physical memory. The list `PhysMem` is an argument and a
--               result; `AddToPhysList` is add_to_phys_list, `PhysAlloc` is phys_alloc, and so on.
--   Menu        src/main.c: the boot menu as a function of the keys and of the clock's seconds.
--   Drive       src/drive.c: the table of drive parameters and the reading of sectors, over the
--               BIOS calls of INT 13h, which are the parameter `Bios`.
--   Clock       src/time.c: seconds from the readings of the real-time clock.
--   Ctype       src/ctype.c and src/ctype.h: the character classes.
--   Number      `strtoul` of src/stdlib.c and `ulltoa` of src/stdio.c.
--   Io          src/io.c: Path (`ParseDevice`), Partition (the choice of a partition in `OpenDevice`),
--               Cache (`ReadCache`, `WriteCache`) and Sector (`ReadSector`).
--   Config      src/config.c: the parser of boot.ini, from the text to a `Config`.
--   Files       what the loaders ask of src/io.c, and the state they work on: the bytes of the memory, the
--               free list, the heap and the files.
--   Multiboot   `LoadModules` of src/multiboot.c. A module that cannot be loaded is left out of the list, where
--               the source moves the modules behind it and lowers the counters.
--   Loader      src/loader.c: `ReadMultibootHeader`, `LoadMultiboot` and `LoadBinary`. What comes before the
--               modules and the jump into the image, which is a parameter, is a function of its own.
--   Volumes     what the two file systems ask of src/io.c and of the heap, and the reading of a run of
--               sectors in pieces, which is the same in src/raw.c and src/fat.c.
--   Raw         src/raw.c: `_OpenFile`, `_ReadFile`, `_GetFileSize` and `_SetFilePointer`.
--   Fat         src/fat.c: names, Oem (`UnicodeToOem`), and the entries of the table; Mount (`FatMount`); File
--               (`GetNextCluster` over `ReadSector`, `_ReadFile` and `_SetFilePointer`).
--
-- Conventions. A number of the program is a native natural number, with the wrap-around of its type
-- written out (add32, mul64 and the like); a C string is the list of its bytes without the NUL. A pointer
-- that may be NULL is an Option. `errno` is a part of the state where the code reads it, and else of the
-- result. The heap, the BIOS and the drive are states that the operations take and return.
--
-- Bounds and fuel. The menu's scrolling loops take the distance they have to go as fuel, which is
-- proved to be enough; the menu's main loop runs over the list of what the keyboard and the clock show, and
-- waits at its end. `read_tracks` and `read_loop` take the number of sectors as fuel, since
-- each round reads at least one. The halving loop takes the count, and `ulltoa` the value plus one.
-- The traversal of the extended partitions takes the distance of the wanted number from 4, which is
-- what its counter has to go. The search for the Multiboot header takes the number of bytes; each round
-- passes four. The reading loops of the two file systems take the number of wanted bytes, since each round
-- reads at least one, or fails; the search for the end of a run takes the number of clusters it may have, and
-- the loop of `_SetFilePointer` the place it goes to.
--
-- Not modelled: the code in assembly (src/asm.s, src/start.s, src/string.s), the screen and the
-- keyboard (src/video.c, src/conio.c), messages and formatted output (src/messages.c, `vsprintf` of
-- src/stdio.c), the copying of the contents by `realloc`, the directories of the FAT file system and the
-- opening of its files, the loaders of boot sectors, of ELF and of COFF images, and the tables that
-- src/multiboot.c fills from the BIOS.
pub mod Base
pub mod Allocator
pub mod Heap
pub mod Sectors
pub mod Mem
pub mod Menu
pub mod Drive
pub mod Clock
pub mod Ctype
pub mod Number
pub mod Io
pub mod Config
pub mod Files
pub mod Multiboot
pub mod Loader
pub mod Volumes
pub mod Raw
pub mod Fat
