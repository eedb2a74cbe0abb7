-- ===== src/Lib.antt =====
-- A verification library for annOS, a monolithic x86 kernel (src/, with the headers under
-- src/include).
--
-- Physical memory (src/PMM.cpp, src/include/PMM.hpp) is in Pmm and its children. `Pmm` holds the
-- array of zones and the memory of their bitmaps. Pmm/Bitmap is CheckIfPagesFree, MapPagesInBitmap
-- and the loop of UnmapPages; Pmm/Zones is FindZone; Pmm/Mapping is MapPages and UnmapPages;
-- Pmm/Allocation is AllocatePhysical; Pmm/Init is the constructor; Pmm/Layout says how the bitmaps
-- lie in memory. Pmm/Ownership is about histories of calls: `Trace` is a sequence of successful
-- calls with the runs of pages that are out. It has the rules of the callers, that a run lies
-- inside its zone and that whole runs are given back, since the code checks neither.
--
-- Virtual memory (src/arch/x86/VMM.cpp, src/include/arch/x86/VMM.hpp) is in Vmm. It takes its
-- frames from the physical memory manager, so `Vmm` holds a `Pmm`. What a frame holds before it
-- becomes a page table is a parameter. Vmm/Init is Init, which makes the directory of the boot code
-- map itself, and Vmm/Histories is about any number of allocations.
--
-- Ports (src/arch/x86/IO.cpp) are in Io: `History` is the list of accesses so far, the newest
-- first, and `Hardware` is what a device answers after such a history, a parameter of every routine
-- that reads a port.
--
-- Interrupts: Pic is the pair of 8259 controllers (src/arch/x86/i8259.cpp), Irq the table of
-- handlers and the dispatcher (src/arch/x86/IRQHandler.cpp), which unmasks and acknowledges lines
-- through Pic. What a handler does is a parameter of the dispatcher. Fault is the handlers of
-- processor exceptions (src/arch/x86/FaultHandler.cpp), with IRQHandler::Init; the addresses of the
-- entry stubs, which are assembly, are parameters; Fault/Flags has the text of the flags that the
-- handlers print, and Fault/Report all their messages. Idt is the interrupt table
-- (src/arch/x86/IDT.cpp), and Timer the millisecond counter with the 8253 that ticks it
-- (src/Timer.cpp, src/arch/x86/PIT.cpp).
--
-- The PCI bus (src/PCIBus.cpp, src/include/PCIBus.hpp) and the search of a driver for its device
-- (src/PCIDevice.cpp) are in Pci. Theorems on what is found take a bus whose configuration space
-- does not change, `Answers` of Pci/Query.
--
-- The tables of the firmware (src/arch/x86/SMBIOS.cpp, src/include/arch/x86/SMBIOS.hpp) are in
-- Smbios: Smbios itself has the search for the entry point and the lookup of a string,
-- Smbios/Tables the structures and what is read of them, and Smbios/Walk the way from one structure
-- to the next. The kernel sees the tables through its page tables: that view is a parameter.
--
-- The keyboard controller 8042 (src/arch/x86/PS2.cpp, src/include/arch/x86/PS2.hpp) is in Ps2, over
-- the ports of Io; Ps2/Commands is about SendCommand, and Ps2/Enabling about Initialize.
--
-- Devices: Keyboard is src/Device.cpp and src/KeyboardDevice.cpp with their headers; what a
-- keyboard reports is a parameter.
--
-- Boot is the part of src/main.cpp that makes the physical memory manager from the memory map of
-- the boot loader. Kernel puts Idt, Pic, Fault, Irq, Timer, Smbios, Pci and Ps2 together, with the
-- interrupts that come afterwards for the timer and the keyboard controller; Kernel/Main is the
-- kernel's entry point kernel_main without its messages, on a `Platform` that holds the ports, the
-- memory and the addresses. The SMBIOS step changes the virtual memory manager and can panic.
--
-- Text output: Vga is src/VGAConsole.cpp with the colours of src/include/Console.hpp. The
-- framebuffer and the text that is written lie in the same memory. Serial is the log console on the
-- serial port (src/DebugConsole.cpp). Log is src/Log.cpp, with the formatted text as an argument.
-- Print is src/libk/stdio_write.cpp, where kprintf joins vsprintf of Libk/Format to WriteVGA of
-- Vga.
--
-- libk: Libk/Mem is src/libk/stdlib.cpp. For src/libk/stdio.cpp, Libk/Text has the conversion of
-- numbers to text and back, and Libk/Format strlen, strcat and vsprintf over byte memory; the
-- arguments of vsprintf are a sequence of words. Libk/Format/Pieces says what a format stands for,
-- as a list of pieces.
--
-- Base and its children hold what the parts share: lists with native indices, 32-bit words, bits,
-- byte memory, and the results of a routine. `ok` is a return, `panic` the kernel's panic with its
-- message, which halts the machine, and `running` a loop whose rounds ran out or a write past a
-- local buffer, which have no result.
--
-- Some loops have no bound in the source: the search of AllocatePhysical, the scanning loops of
-- WriteVGA, the loops over strings of the firmware, those of vsprintf over its format and its
-- texts, the loop over the events of a keyboard, and the flush of the keyboard controller. They
-- take a number of rounds; Pmm/Allocation/Limits, Keyboard/Pressed, Vga/Escapes, Smbios/Advance and
-- `cost` of Libk/Format/Pieces say how many are enough. For the flush that is up to the controller.
-- The loop of GetSMBiosString has as many rounds as the tables have bytes. The wait for the serial
-- line takes the number of rounds as an argument, which the source sets to 0xfffff2. The digits of
-- a number are found in 63 rounds: more than 63 overrun the local buffers of _inttostr. All other
-- loops are structural.
--
-- Pmm, Vmm and the fields of registers compute addresses and sizes in 32 bits, and wrap around as
-- the source does. The address of a byte or word inside an object of the kernel does not wrap around:
-- no object reaches the end of the address space. That holds for the texts and buffers of Libk/Mem,
-- Libk/Format, Log and Print, the bitmaps of Pmm/Bitmap, the framebuffer and the texts of Vga, the
-- structures of Boot and Smbios and the local array of Fault/Flags.
--
-- Arrays have the bounds of the source where the code can overrun them. The digits of _inttostr and
-- the text of a number in vsprintf have no result when they overrun their local buffers, and the
-- theorems on them ask for numbers that fit. The array of Pci has 32 entries, and what Initialize
-- writes behind it is not tracked. The buffers of strcat, vsprintf and kprintf are places in the
-- memory: a text that is too long is written over what stands behind them.
--
-- Not modelled: the log messages of the other parts, waits, the stubs CheckPages,
-- CheckPhysicalToVirtual and GetIRQMask, the assembly, the messages of src/main.cpp, and the parts
-- of the kernel that no paragraph above names.
pub mod Base
pub mod Libk
pub mod Pmm
pub mod Io
pub mod Pic
pub mod Irq
pub mod Vga
pub mod Vmm
pub mod Pci
pub mod Timer
pub mod Idt
pub mod Serial
pub mod Fault
pub mod Log
pub mod Smbios
pub mod Ps2
pub mod Boot
pub mod Print
pub mod Keyboard
pub mod Kernel
