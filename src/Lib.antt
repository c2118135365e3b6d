-- ===== src/Lib.antt =====
-- Models of CrackOS2, a 64-bit kernel in C++ (src/, header/), and what holds of them.
--
-- The parts of the kernel. src/main.asm enters long mode and src/start.cpp calls the setup of each
-- part in turn: output (BasicOutput), physical memory, page tables and heap (Memory), interrupts
-- and timers (CPUControl, ACPI), devices (PCI, Storage), and at last processes (Process). Physical
-- pages come from the physical allocator; the heap and the page tables take theirs from it; the
-- storage layers (SATA, partitions, Ext4, file systems) stand on the heap and on smart pointers
-- (LanguageFeatures); a process owns mappings, which it loads into the page tables.
--
-- Which file models what:
--   Base and its children: lists as C arrays, uint64_t arithmetic with its wrap-around, results
--     that fault or run out of fuel, memory as a function from addresses to objects.
--   Memory/Physical: src/Memory/physicalAllocator.cpp. The descriptors of free regions lie in the
--     free pages themselves; the state is memory and the static counters, a descriptor is a record,
--     and the temporary mapping through which the code reads it is an offset of the address.
--     `allocate` is allocatePhysicalMemory, `free` is freePhysicalMemory, and `free_scan` and
--     `connect` are its two loops. FreeList says what the descriptors in memory mean as a list of
--     intervals; Allocate, Release, Scan and Connect refine the functions to operations on it; Free
--     and Gap are about pages next to a free region. Startup is readMultibootInfos and what it
--     calls.
--   Output: src/BasicOutput/Output.cpp and header/BasicOutput/Output.hpp. A printing function is
--     the list of the characters that it prints. Dec is printDec, Hex the hexadecimal print, Format
--     is printFormat and printf, Ring is addToBuffer and readBuffer, Dump the other printing
--     functions. Vga is VGATextOut (src/BasicOutput/VGATextOut.cpp): the screen is memory and a
--     cursor.
--   Language/Bytes: src/LanguageFeatures/memory.cpp, on memory as a function from addresses to
--     bytes. Copy, Fill, Compare and Text are about memcpy, memset, the comparisons, and strncpy.
--     Vga uses memcpy and memset.
--   Language/Digits: src/LanguageFeatures/string.cpp. Text is about intToString, Reverse about
--     reverse.
--   Language/Pointer: shared_ptr and weak_ptr of header/LanguageFeatures/SmartPointer.hpp, whose
--     Data and objects lie in an explicit heap. Count is about one operation, Lifetime about
--     sequences of them.
--   Storage/Filesystem: src/Storage/Filesystem.cpp. A file system is a record of its virtual
--     functions, which are not part of that file. Lookup is about the choice by prefix, Dispatch
--     about the operations.
--   Storage/Partition: src/Storage/Partition.cpp, on a device given by its read and write
--     functions. Table is about the partition table, Bounds about reads and writes.
--   Storage/Devices: src/Storage/Storage.cpp, which mounts the partitions of a new device.
--   Storage/Sata: src/Storage/SATA.cpp. Its memory is one function from addresses to bytes.
--     Transfer is read and write over their part for aligned requests: Reading and Alignment say
--     what a read delivers, Ending that the recursion ends. Port has the registers, which are a
--     parameter, with Slots and Waiting; Command has the regions of memory that a disk is to use,
--     with Rounds, Regions and Gaps; Device has the command in memory, with Memory and Issue; Start
--     has the start of a port, with Tables; Controller has the start of the controller.
--   Storage/Ext4: src/Storage/Ext4.cpp on a source of bytes. Extents is about the walk through
--     the extents of a file, Paths has the search for a path, with Entries and Search about a block
--     of a directory, and Operations has what a Filesystem is made of, with Results.
--   Memory/PageTable: src/Memory/pageTable.cpp, entries by their physical addresses. Their format
--     and that of an address are Memory/PageEntry. Digits is about `|` on the fields of an address,
--     Window about what `init` sets up, and Walk about `map` and `unmap` after it, with Pages and
--     BigPages.
--   Memory/Heap: src/Memory/heap.cpp, the headers of the blocks by their addresses, with the page
--     tables and the physical allocator; Links is about the list of blocks, Freed about the pages
--     that kfree means to give back, Placed about the places that kmalloc takes. Its loops run on
--     fuel, one round for a block of the list.
--   Memory/TempMapping: src/Memory/tempMapping.cpp for user mode; FirstPage says which page it
--     maps.
--   Acpi/Apic: src/ACPI/APIC.cpp, the firmware's table in memory and the devices' registers as a
--     parameter. Walk says what an I/O APIC is and what the search over the entries comes to,
--     Search what it finds, Pins what the functions do at an I/O APIC, and Queries what they
--     answer, with Overrides about the source overrides. Local has the local APIC and the setup,
--     with Masked and Silenced about the pins that it masks. A loop over the entries takes one unit
--     of fuel for each entry and one more. Acpi/Redirection is the entry of a pin.
--   Cpu/Interrupts: src/CPUControl/interrupts.cpp, whose state has the writes to ports. Entry has
--     the functions in the vector table, Cpu/Gates its entries. Vectors and Ready are about the
--     table of handlers, Lines about the lines of the PICs, Switched about the switch to the APIC
--     and Redirected about the lines after it.
--   Units: src/Common/Units.cpp, the conversions between units of time.
--   Process/Mapping: src/Process/Process.cpp. The list of entries lies in an explicit heap,
--     because its `unique_ptr`s (header/LanguageFeatures/SmartPointer.hpp) free what they owned on
--     assignment. Segment says what list a pointer leads to; Unmap, Split and Compact are about
--     unmap and compact, Pages is about load and unload.
--
-- An int64_t is its bit pattern, and an overflow of one wraps round. Machine integers are natural
-- numbers with `% 2 ^ w` where the code's arithmetic can wrap. Loops that follow pointers take
-- fuel, one unit for each round: a run that needs more is `out_of_fuel`, and every theorem about
-- such a run states fuel that is enough, in terms of the list's length. printDec's loops run on 20
-- units, since a uint64_t has at most 20 digits. A read through a pointer to freed memory, or to
-- none, is the result `fault`, and the model goes no further there.
--
-- Not modelled: the hardware (ports, control registers, page table registers, device registers, the
-- assembly files), the debugger and the terminal, and the parts that have no file here.
pub mod Base
pub mod Memory
pub mod Output
pub mod Units
pub mod Language
pub mod Process
pub mod Storage
pub mod Acpi
pub mod Cpu
