-- ===== src/Lib.antt =====
-- Verification library of maizono_os, a small x86-64 kernel with its UEFI bootloader.
--
-- The bootloader loads the kernel and hands it the memory map and the frame buffer. The kernel then
-- starts its parts in turn: frame buffer, console, segment table, page tables, PCI, ACPI, PS/2
-- controller, interrupts, physical memory manager. Each part is a static behind a lock, with a method that initialises it.
--
-- Files and the code they are about:
-- - Base, Base/Exec, Base/Checked: what the parts share. `Exec S E A` is the outcome of code with a
--   state: a normal return, an error, or a panic. `Option` stands for code that panics and has no
--   error; `Checked` has the arithmetic of the debug build, where an overflow panics.
-- - Word: machine words, their shifts and masks, and the laws of single bits and of bit fields.
-- - PhysMem: kernel/src/phys_mem_manager.rs and kernel/src/memory_map.rs. The bitmap is a function
--   from the index of a word to the word; PhysMem/Alloc has the fuel of `alloc`.
-- - Paging: kernel/src/paging.rs. Paging/Walk is the page walk of the processor.
-- - Gdt: kernel/src/gdt.rs. Gdt/Fields is the layout of a descriptor.
-- - Graphic/Pixel: common/src/graphic.rs. Graphic/Font: kernel/src/graphic/font.rs.
-- - Graphic/FrameBuffer and Graphic/Screen: kernel/src/graphic/frame_buffer.rs, the methods over a
--   memory of bytes and the module's functions, which lock the static frame buffer.
-- - Graphic/Console: kernel/src/graphic/console.rs. Graphic/Console/Text is the specification, a page
--   of 25 lines.
-- - Error: kernel/src/error.rs and the error types that it wraps.
-- - Ps2: kernel/src/ps2. The device behind the ports is a parameter, `Ps2/Port.Device`.
-- - Pci: kernel/src/pci/mod.rs. What the data port reads after an address was written is a parameter,
--   and so is the vector of the `arrayvec` crate, with what it documents as hypotheses. Pci/Present says
--   which functions the scan should find.
-- - ArrayVec: common/src/arrayvec.rs.
-- - Arch: kernel/src/arch.rs. Arch/Hardware is the machine behind volatile accesses, MSRs and ports, a
--   parameter. Arch/LocalApic and Arch/IoApic are the two drivers; Arch/IoTable states how the I/O
--   APIC of the data sheet answers, and reads its redirection table.
-- - Acpi: kernel/src/acpi.rs. The tables in memory and the `acpi` crate are a parameter, `Tables`.
-- - Interrupts: kernel/src/interrupts.rs: vectors and handler table, the steps of `init` (Setup), and the
--   handlers (Handlers), which use the console, the PS/2 code and the local APIC.
-- - Graphic/Static: the static console with its lock and the macros `kprint` and `kprintln`.
-- - Boot: bootloader/src/kernel.rs and bootloader/src/main.rs. Boot/Image is the copy of the segments,
--   Boot/Loader the calls around it; Boot/Firmware is UEFI and the ELF parser, a parameter.
-- - Entry: kernel/src/main.rs: `main`, which runs the initialisations of all parts in order; Entry/Running
--   joins the theorems of the parts, Entry/Handoff puts
--   the bootloader before it. The interrupts that arrive after `enable` are an argument of `main`, handled
--   between its steps, and while its last line is printed with the console locked; Entry/Arriving is
--   about them.
-- - Graphic/Cursor: kernel/src/graphic/mouse.rs.
-- - Pci/Ports and Pci/Access: the ports of the configuration space, and the list of devices with its lock.
-- - Common: common/src/address.rs, array.rs and error.rs, and small wrappers of the kernel.
-- - Boot/Firmware.effect is what the calls of UEFI, and the heap and file buffers behind them, do to the
--   memory. The precondition of `from_raw_parts_mut` is a panic, as in the debug build.
-- - Ps2/Chip is the data sheet of the controller; Ps2/Completes runs `init` on it.
-- - Graphic/Console/Picture is the specification of the console's pixels.
-- - The Examples files have the theorems at concrete values.
--
-- Bounds: numbers are natural numbers; a value of the code that is cut to a width is cut here by a
-- remainder. The polling loops have the code's own limit of 1000 rounds. `alloc` has no limit of its
-- own: its fuel is the end of the managed range plus one, and its theorem has no case that runs out.
-- The scan of PCI has fuel for 33 nested buses, since each one has stored a device of at most 32.
-- The wait for the delivery of the interrupt command has no limit in the code: its fuel is a parameter, and
-- its theorem says when it is enough.
--
-- Parameters: the memory types and descriptors of the `uefi` crate, the addresses that the linker
-- gives the page tables, the segment selectors of the `x86_64` crate, the PS/2 device, the machine behind
-- the APICs, the ACPI tables, those of PCI, and for the bootloader UEFI and the ELF parser.
--
-- Not modelled: the panic handler, the timer (which is not part of the kernel: no module names it, and it
-- calls a function that does not exist), what the kernel and the bootloader print while they start, but
-- for the two lines of `main`, and spinning on a lock.
pub mod Base
pub mod Word
pub mod PhysMem
pub mod Paging
pub mod Gdt
pub mod Graphic
pub mod Error
pub mod Ps2
pub mod Pci
pub mod ArrayVec
pub mod Arch
pub mod Acpi
pub mod Interrupts
pub mod Boot
pub mod Common
pub mod Entry
