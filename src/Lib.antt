-- ===== src/Lib.antt =====
-- FileStick: the operating system of a small RISC-V computer with an Econet interface (system/), its
-- C library glue (lib/) and programs. This library models the kernel's own logic.
--
-- The parts and how they meet. A program's system call reaches system/fd.c, whose table `fdtable` maps a
-- descriptor to a table of driver functions; system/dev_open.c and system/file.c fill its entries. The
-- drivers are the console (system/console.c), the Econet (system/raw_econet.c with the interrupt
-- routines of system/econet_rx.S), the LED (system/rgbled.c), the SPI flash (system/spi_flashdev.c) and
-- the files of FatFs (system/file.c). FatFs reads and writes sectors through system/diskio.c, which goes
-- to the flash (system/flashdisc.c, again through descriptors) or to an SD card (system/sd_ldio.c,
-- system/sd_io.c). Programs are loaded by system/elfload.c, which puts their arguments on the stack and
-- sets the program break of system/brk.c; the C library's allocator (lib/malloc.c) takes its pool by that
-- break. The init program (init/) reads commands and calls its own or starts a program; `configure` and
-- the file server (fileserver/) use the Econet device by its descriptor.
--
-- The files.
--   Base      names shared by all: tests on native numbers, lists, C integers, bit operations, strings,
--             and return codes (`val n` for a result, `err e` for a negated errno number).
--   Fd        system/fd.c, fd.h, dev_open.c. `Fd.Table` is `fdtable`, `fd_alloc` and `fd_dealloc`; `Fd`
--             the system calls, over a function `funcs` from the pointer `fdfunc` to a driver's table;
--             `Fd.Open` `open_device`, `SYS_open`, `fd_init`; `Fd.Invariant` and `Fd.Calls` their laws.
--   Console   system/console.c for the hardware FIFO, on the lists of bytes that arrive and are sent.
--   Econet    system/raw_econet.c; `Econet.Isr` is what the interrupt routines do to the variables
--             that they share with the driver, and `Econet.Ioctl` has `econet_ioctl`; `Econet.Client` is the
--             device as a program uses it, with the driver as its implementation.
--   SpiFlash  system/spi_flashdev.c and `flash_memcpy` of system/spi_flash.S: the write buffer here, the
--             device's functions in `SpiFlash.Files`; `SpiFlash.Chip` states what the driver relies on of
--             the chip, and `SpiFlash.View` what the device holds: the chip behind the buffer.
--   Fs        system/mount.c, file_ops.c; `Fs.Directory` directory.c; `Fs.File` file.c.
--   Memory    system/brk.c and lib/sbrk.c; `Memory.Malloc` lib/malloc.c.
--   Poll      system/poll.c; `Poll.Led` system/rgbled.c.
--   Disk      system/sd_ldio.c; `Disk.Card` sd_io.c, `Disk.Flash` flashdisc.c, `Disk.Drives` diskio.c.
--   Elf       system/elfload.c: reading, validating and loading a program; `Elf.Args` its arguments on
--             the stack, `elf_run`, `elf_boot` and `super_elf`.
--   Libc      system/memcpy.c and memset.c; `Libc.Tokens` the loop over `strtok` that init/cli.c,
--             system/elfload.c and fileserver/starcmd.c have, and `Libc.Words` the words of a line.
--   Init      init/cli.c (`clean_cmdbuf` here, the rest in `Init.Cli`), conffile.c, main.c;
--             `Init.Configure` configure.c, `Init.Commands` icommands.c. The system calls are the
--             fields of the records `Os` and `Files`.
--   Debug     `hextoint`, peek and poke of system/hexdump.c, `Debug.Dump` its `hexdump`; `Debug.Shell`
--             system/super_shell.c.
--   FileServer  fileserver/message.c, starcmd.c and main.c.
--   Monitor   monitor/decoder.c.
-- Modules named Tests hold runs of the definitions and the theorems at concrete inputs.
--
-- The outcome `none` of a call is no return: an access outside an array, a call through a null pointer,
-- or a wait for what never comes. Numbers are natural numbers; a 32-bit sum has its `% 2 ^ 32` written
-- out. What interrupts do between two steps of the kernel is a list of events or a function that the
-- call is given, since nothing else changes the state.
--
-- Loops are recursion on the data they run over or on their count. Fuel is used for reading a frame in
-- pieces, where the frame's length and two is enough, for the write loop of the flash, which gets the
-- number of bytes and one, a round for each byte and one to spare, and for the loops of the command line
-- and of the shell, which end when a read fails or at a command, and of a script, where one round more
-- than its lines is enough.
--
-- Parameters: FatFs and the TLSF allocator, which are other projects' libraries, the SPI bus and the
-- flash chip, which are hardware, the drivers' functions where the descriptor table only hands on, and
-- the system calls of the programs where they do not go to a driver of this library. What the source
-- uses of the C standard library (strtok, strcmp, strcasecmp, atoi) is written out by its standard
-- meaning.
--
-- Not modelled: that FatFs, after a failed mount, can open the flash device through the system calls
-- while it opens a file; accesses to memory that are not aligned; FatFs, TLSF, the formatted output and
-- the string functions, which are copies of libraries; the assembly of traps, timers and start-up; what
-- only prints for a person at the console; the commands ls and rx of init/icommands.c and
-- init/peekpoke.c, a copy of the code of system/hexdump.c; the XMODEM receiver and the loop of the
-- network monitor; the simulator's stand-ins, the hardware and the boot ROM. Of the hardware, the loader
-- and the debugging commands know that the core's addresses have 24 bits.
pub mod Base
pub mod Fd
pub mod Console
pub mod Econet
pub mod SpiFlash
pub mod Fs
pub mod Memory
pub mod Poll
pub mod Disk
pub mod Elf
pub mod Libc
pub mod Init
pub mod Debug
pub mod FileServer
pub mod Monitor
