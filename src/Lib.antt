-- ===== src/Lib.antt =====
-- A verification library for the programs of this repository: a linked list; the scull devices, the
-- snull network interfaces, the sbull disk, the tiny_tty and tiny_serial ports, and the short and
-- shortprint devices of LinuxDeviceDrivers3Ed; and the 64-bit macros of the examples. The drivers
-- share what they exchange with the kernel (Kernel), and the scull drivers the data and the loops of
-- Scull.
--
-- LinkedList models list/list.c and list/list.h. A `List` and its nodes are a store, a map from
-- addresses to nodes; each function `list_x` of the C code is the command `list_x` (`list_find_pos`
-- is `list_findPos`, and so on). A command ends with a result and a store, with `fault` where the code
-- follows a pointer to no node, with `overflow` where the size leaves the range of `int`, or with
-- `out_of_fuel` where a loop has not ended. The loops of list_findPos and list_delete get `size + 1` rounds, one more than a well-formed list has nodes.
-- `fresh` is the address that malloc returns.
--
-- Scull models LinuxDeviceDrivers3Ed/scull/main.c and scull.h: a device is the list of its quantum
-- sets, and an operation ends as the outcome `done`, with what it returns and the device; as `overrun`,
-- when it touches memory outside an allocation; or as `undefined`, when it divides by zero or leaves
-- the range of `int`. Scull/Ioctl models scull_ioctl. The functions have the names of the C code;
-- `place`, `read_at`, `with_array`, `with_quantum`, `put_slot`, `copy_in` and `copy_out` are parts of
-- scull_read and scull_write. The recursion of `scull_follow` is on the number of the item.
--
-- ScullAccess models LinuxDeviceDrivers3Ed/scull/access.c: scullsingle as a step relation on its
-- atomic operations (ScullAccess/Single), sculluid and scullwuid (ScullAccess/Sessions), and scullpriv
-- (ScullAccess/Private). Their reads and writes are those of Scull.
--
-- ScullPipe models LinuxDeviceDrivers3Ed/scull/pipe.c. The pointers into the circular buffer are
-- offsets; a read or write that gets past the allocation is the outcome `overrun`. Integers wrap as
-- the `int` and `size_t` of a 64-bit machine do. What other processes do while an operation sleeps is
-- a list of wake-ups, each with the device as they left it.
--
-- ScullMapped models scullc, scullp, sculld and scullv of LinuxDeviceDrivers3Ed, the scull devices that
-- can be mapped: main.c and mmap.c of each. They differ in how a quantum is allocated. `read_dev`,
-- `write_dev`, `trim`, `open_dev` and `dev_ioctl` are what their functions have in common, and
-- `scullp_write` and the like (ScullMapped/Scullp, and one module for each other driver) apply them.
-- ScullMapped/Mmap models the mappings. `unit` is the quantum of scullc and the order of the others.
--
-- Loading models how scull with its friends, and scullc, scullp, sculld and scullv, are loaded and
-- unloaded: what their init and cleanup functions take from the kernel and give back, as a list of
-- actions. sculld also registers a driver and devices through lddbus/lddbus.c; what the driver core
-- answers is an argument (`Ldd`). Loading/Balance keeps the books: `after` is what is held behind the actions, and `none` when
-- something is given back that is not held. Loading/Scull has main.c, pipe.c and access.c of scull.
--
-- Snull models LinuxDeviceDrivers3Ed/snull/snull.c. The state is that of both interfaces, a `Card`
-- for each; a packet is in one list at a time, so that the lists stand for the pointers `next`.
-- Snull/Packets has the pool and the queue, Snull/Receive the interrupt handlers and the poll,
-- Snull/Transmit the transmission, and Snull/Device the configuration and the headers. An operation that
-- takes a buffer ends as `done`, as `null_pointer` or as `overrun`. The loop of snull_poll gets one
-- round more than the queue has packets. Operations follow one another whole: each holds the lock where
-- it changes the lists. Snull/Session has the calls that the kernel makes.
--
-- Sbull models LinuxDeviceDrivers3Ed/sbull/sbull.c: the transfers and the requests (Sbull), the users,
-- the timer and the medium (Sbull/Media), and the memory of a disk from its set-up to its removal
-- (Sbull/Setup). A list of requests is what the kernel's queue gives, and `none` is a transfer that
-- leaves the disk or the buffer. sbull_make_request gives the answer to its bio too. The kernel's `bio_cur_sectors` and `check_disk_change` are arguments.
--
-- TinyTty models LinuxDeviceDrivers3Ed/tty/tiny_tty.c: the count of opens and the timer of a port
-- (TinyTty/Ports), and its modem lines and writes (TinyTty/Modem). A NULL timer that `del_timer` is
-- given is `none`; the wake-ups of a wait are a list.
--
-- TinySerial models LinuxDeviceDrivers3Ed/tty/tiny_serial.c: the timer of a port, and the characters
-- that wait in the circular buffer of the serial core. What was sent is what the driver prints.
--
-- TimePage models the circular page of time stamps that LinuxDeviceDrivers3Ed/short/short.c and
-- shortprint/shortprint.c share: what interrupts print, and what reads take out. Its memory is the page
-- and the byte behind it, since `sprintf` ends its text with a NUL.
--
-- Short models short/short.c: the interrupt handlers, the top halves and the bottom half (Short,
-- Short/BottomHalf), the reads and writes of the port (Short/Ports), and the two searches for the
-- interrupt line (Short/Probe). The bottom half's loop gets 512 rounds, one for each place of the
-- array, after which the tail is at the head again. The loops of the searches go over a list of
-- answers of the kernel, or of the lines that fire.
--
-- ShortPrint models shortprint/shortprint.c. Its handlers and its work function are events, each of
-- them one step. A write is a list of rounds, each with the events before it, those between its copy and
-- the move of the head, and those between this move and the lock under which the output is started
-- (ShortPrint/Window); a round without space stands for a test of a sleeping write. A write ends as
-- `overflows` where its count of bytes leaves the range of `int`. The state has what was written to the port, from which ShortPrint/Stream reads what the
-- printer took.
--
-- I64 models the macros of example/example_S64.c, `i64_add` for I64_Add and so on; a `long long` is
-- the number of its 64 bits. A sum or a product that no `long long` holds has no result. A shift of a
-- negative number and the assignment of a wider number to a word are as GCC defines them. The two
-- shifts are left out.
--
-- The kernel's copies to and from user memory, its signals, capabilities and kmalloc are arguments
-- (Kernel). Base holds the tests on numbers and the lemmas on arrays and their slices that the parts
-- share.
--
-- Not modelled: what the drivers print, their /proc files, and the registration of the network
-- interfaces, the disks, the ttys and the parallel ports; sbull_full_request, which depends on how the
-- kernel ends parts of a request; the drivers simple, skull, pci and usb, the bus of lddbus, misc-modules and
-- misc-progs of LinuxDeviceDrivers3Ed; fd2fp; the GStreamer application and the other examples; the
-- generated build files of gst-stmfrdk; the shell scripts.
pub mod Base
pub mod I64
pub mod Kernel
pub mod LinkedList
pub mod Loading
pub mod Sbull
pub mod Scull
pub mod ScullAccess
pub mod ScullMapped
pub mod ScullPipe
pub mod Short
pub mod ShortPrint
pub mod Snull
pub mod TimePage
pub mod TinySerial
pub mod TinyTty
