-- ===== src/Lib.antt =====
-- plo, the loader of Phoenix-RTOS: its memory maps, its file access over devices, and the library
-- routines beneath them.
--
-- The parts and how they meet. syspage.c keeps the page that the loader hands to the kernel: a
-- heap, named memory maps with their entries, and the programs placed in them. phfs/phfs.c gives
-- names to devices and to ranges of them, and reads and writes either the device itself, through
-- the table of devices/devs.c, or a file of a host, through the requests of phfs/phoenixd.c, which
-- travel as the framed messages of phfs/msg.c over a device of the same table. cmds/cmd.c runs the
-- commands of a script or of the lines that are typed at its prompt; copy, call, app and kernel
-- work on files through phfs/phfs.c, where alias registers ranges, and app and kernel place what
-- they load in the maps of syspage.c. Of the devices, the memory bank, the NOR flash driver with
-- its cache of one sector and the RTT pipes are here. lib/ holds what these use: linked lists, the
-- circular buffer that drivers fill, the partition table and its checksum, the parsing of numbers
-- and options, and the printing of formats.
--
--   Common        shared names, tests on numbers, lists, C strings, masks, and result codes (lib/errno.h)
--   Syspage       syspage.c: State (the data), Align (ALIGN_ADDR), Alloc (syspage_init, syspage_alloc),
--                 Entries (syspage_sortedInsert, syspage_bestFit), Maps (attributes, syspage_mapAdd,
--                 syspage_entryAdd), Resolve (the lookups), Progs (syspage_progAdd and
--                 syspage_progAllocateAndAdd)
--   Msg           phfs/msg.c and phfs/msg.h: Header (words and checksum), Frame (msg_write), Reader
--                 (msg_read), Send (msg_send)
--   Phoenixd      phfs/phoenixd.c
--   Phfs          phfs/phfs.c: the registered names; Access: the operations on a handler; Files: the
--                 interface of both as the commands use it
--   Devs          devices/devs.c and devices/devs.h
--   Cbuffer       lib/cbuffer.c
--   Ptable        lib/ptable.c and lib/ptable.h, with Crc32 for lib/crc32.c
--   Ctype         lib/ctype.c
--   Strtoul       lib/strtoul.c
--   Getopt        lib/getopt.c
--   LinkedList    lib/list.c
--   Format        lib/format.c: lib_formatSprintfNum; Parse: lib_formatParse
--   Cmd           cmds/cmd.c: cmd_parseArgLine, cmd_parse; Prompt: cmd_prompt. A command that does not
--                 return gives no result
--   Copy          cmds/copy.c: cmd_cpphfs2phfs; Command: cmd_devParse and cmd_copy
--   Call          cmds/call.c
--   MapCommand    cmds/map.c
--   AliasCommand  cmds/alias.c
--   LoadApp       cmds/app.c: cmd_mapsParse, cmd_mapsAdd2Prog, cmd_cp2ent; Load: cmd_appLoad; Command: cmd_app
--   LoadKernel    cmds/kernel.c, with the headers of cmds/elf.h
--   ShowScript    cmds/script.c
--   Confirm       lib/prompt.c
--   Ramdrv        devices/ram-storage/ramdrv.c
--   FlashImxrt    devices/flash-imxrt/flashdrv.c: flashdrv_sync; Access: the other operations; Chip: what
--                 they rely on in devices/flash-imxrt/nor/nor.c
--   Rtt           devices/pipe-rtt/rtt.c
--   Tests         runs on concrete data
--
-- How the code is modelled. A function that changes the globals of its file takes their record and
-- returns the new one beside its result; NULL and a negative result are values. Numbers carry the
-- wrap of their width. syspage.c, lib/cbuffer.c and lib/strtoul.c are modelled for 32-bit addresses;
-- ALIGN_ADDR and phfs/phfs.c take the width as an argument. A circular list of syspage.c is the list
-- of its nodes from the head on. What the HAL, the device drivers and the linker give is a
-- parameter: syspage.c takes a `Target`, devices/devs.c a type of hardware states, and the message
-- code the functions that write to and read from a device.
--
-- Fuel. The loop of syspage_mapAdd over the entries of the HAL has the heap's end as its fuel: each
-- round takes at least one byte of the heap, so that fuel is enough. devs_iterNext has the number
-- of majors left. cmd_parseArgLine takes a character or a slot of argv in each turn, and cmd_parse
-- a character of the script for each line. lib_formatParse takes a character in each turn, and the
-- digits of a number are fewer than 64 in the bases 8, 10 and 16. In cmds/copy.c a turn of the
-- outer loop reads a byte at least or is the last, and a turn of the inner one writes a byte or the
-- loop does not end, as it is with cmd_cp2ent and the segments of cmds/kernel.c. The loops of
-- cmds/call.c and cmds/script.c have an argument for their fuel, for which any number above the
-- length of the file is enough; so has the option loop of cmds/alias.c, for which two turns are
-- enough where one option stands before the name. The NOR driver goes through the pages of a
-- sector, the sectors of a range or the bytes of a write, none of which are more than the bytes.
-- rtt_writeBlocking has an argument for its fuel, for which any number above the turns that its
-- time allows is enough. The loop of msg_write follows the bytes of the frame, and its result is
-- that it does not end where the counter of the source wraps around. All other loops follow a list
-- or a count.
--
-- Not modelled: output (the functions named show, what commands print, lib/console.c), floating point
-- numbers in lib/format.c, the other commands in cmds/, the other drivers in devices/, flashdrv_init and
-- nor.c below the NOR driver, and hal/.
pub mod Common
pub mod Syspage
pub mod Msg
pub mod Cbuffer
pub mod Ctype
pub mod Strtoul
pub mod Getopt
pub mod Crc32
pub mod Ptable
pub mod Devs
pub mod Phoenixd
pub mod Phfs
pub mod Tests
pub mod Cmd
pub mod Format
pub mod LinkedList
pub mod Copy
pub mod Call
pub mod Ramdrv
pub mod Rtt
pub mod FlashImxrt
pub mod MapCommand
pub mod AliasCommand
pub mod LoadApp
pub mod LoadKernel
pub mod Confirm
pub mod ShowScript
