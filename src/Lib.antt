-- ===== src/Lib.antt =====
-- gogoos: a small 32-bit operating system kernel in C.
--
-- The parts and the files that model them:
-- * lib/structure/bitmap.c is Structure.BitMap. A map is the bytes from startAddr to the end of the
--   object behind it, and the length that the code keeps. bitMapScan has its two scans as functions.
--   zero_bit runs on nine rounds, since a byte has eight bits.
-- * lib/structure/list.c is Structure.LinkedList. An element is an address with a prev and a next
--   pointer in a memory, which also holds the interrupt flag; 0 is NULL, and an access through it
--   faults. A walk takes one round of fuel for each element and one more.
-- * lib/structure/ioqueue.c is Structure.IoQueue. The keyboard handler fills the queue, and the
--   console reads it. One pass through the monitor is one step.
-- * lib/string.c is CString.
-- * device/keyboard.c is Device.Keyboard. The handler takes the scan code that the port gives and the
--   flags of the modifier keys, and the queue receives what it types.
-- * fs/file.c, with the inode of fs/inode.h and the sectors of device/ide.c, is Fs and Fs.Read: how
--   fileRead collects the sectors of a file and copies their bytes. The loop takes as many rounds as
--   there are bytes, since every round copies at least one.
-- * fs/fs.c, pathParse and pathDepthCnt, is Fs.PathName. Each round takes a component of the path, so
--   that as many rounds as the path has characters are enough.
-- * lib/user/stdio.c is Stdio. itoa and itoha have a round for each byte of their array and one more.
-- * shell/buildin_cmd.c, washPath and makeClearAbsPath, is Shell.WashPath, over the paths of fs/fs.c and
--   the strings of lib/string.c.
-- * shell/shell.c, cmdParse, is Shell.CmdParse.
-- * fs/file.c, the bit maps of a partition, is Fs.BitMaps.
-- * fs/inode.c, fileOpen and fileClose of fs/file.c, and sysClose and sysLseek of fs/fs.c are
--   Fs.OpenFiles: inodes in memory with their counts, and the descriptors that name them.
-- * fs/inode.c, inodeSync, is Fs.InodeSync. The table of inodes is a run of bytes over its sectors, which
--   Fs.Sectors cuts into words; an inode takes 76 of them, and may lie across two sectors.
-- * fs/file.c, fileWrite, is Fs.Write: first the search for the blocks, with what it takes from the map,
--   then the loop, which has as many rounds as bytes, and inodeSync. The bytes are what fileRead reads.
-- * fs/fs.c, sysRead and sysWrite, is Fs.Calls, over all of these and the descriptors.
-- * fs/inode.c, inodeRelease, is Fs.Release.
-- * fs/dir.c, dirRead, searchDirEntry, syncDirEntry, deleteDirEntry, createDirEntry and dirIsEmpty,
--   with the loop of ls in shell/buildin_cmd.c, is Fs.Dir. A directory has 140 blocks of 21 entries, which bounds the loops.
-- * fs/file.c, the searches of the two descriptor tables, is Fs.Descriptors.
-- * kernel/thread/thread.c and the tick of device/timer.c are Kernel.Thread: the scheduler over the
--   ready list, as operations on one state, and as a step relation. Creation and exit of threads are
--   not modelled.
-- * kernel/thread/sync.c is Kernel.Sync: the semaphore and the lock over that state, and the threads that
--   use a lock, as a step relation.
-- * kernel/thread/thread.c, the pool of process numbers, is Kernel.Pid, on the bit map.
-- * kernel/memory.c is Kernel.Memory: the pools of frames and pages on the bit map, and the page tables
--   as the words that are mapped at 0xffc00000. The loops run on the count of the pages.
-- Everywhere the result none is an access outside an object, a failed ASSERT, or a walk that fuel
-- cuts short; a theorem that gives a result shows that none of these happens. A machine integer is a
-- natural number, its wrap-around written out as u32 or u8.
--
-- Not modelled: the boot sector and loader, assembly, ports and screens, which are hardware; the
-- arenas of sysMalloc; processes; fileCreate, dirRemove and the system calls that go by a name;
-- reading a line in the shell, and its commands, which only call the system.
pub mod Common
pub mod Structure
pub mod CString
pub mod Device
pub mod Fs
pub mod Stdio
pub mod Shell
pub mod Kernel
