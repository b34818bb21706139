-- ===== src/Lib.antt =====
-- Re-XVapor: a verification library for the kernel's own core logic.
--
-- The kernel is monolithic. Processes allocate pages from the page allocator, talk through pipes,
-- and reach the disk through the buffer cache and, for the xv6 file system, a redo log. Each part
-- keeps its state behind a lock; a function of the model is one critical section of that lock, and
-- where a call sleeps, one stretch of it. A component's step relation orders such sections freely.
--
-- Base: shared names, lists, memories as functions, bits of words.
-- Mm.Kalloc, kernel/mm/kalloc.c: kalloc, kzalloc, kmalloc, kcalloc, kfree, freerange, kinit and the
--   counters. The free list is linked through memory (Chain); Laws describes each operation on the
--   list of free pages, Owners the allocator with its callers. freerange runs on fuel, one round for
--   each page below its upper address and one more, which Laws shows to be enough.
-- Mm.Pte, the Sv39 macros of kernel/include/riscv.h, and Mm.Vm, the RISC-V half of kernel/mm/vm.c,
--   on the allocator's memory. Table reads the tables as a map from addresses to entries, with a label
--   for each table page; Write treats a store to a slot, Linked and Grow a new table, Walk and Space walk and
--   walkaddr, Map, Range and Mapping mappages. User has the calls on a process's pages, with uvmunmap
--   in User.Unmap; Copy has copyin, copyout and copyinstr. The loops over pages take a round of fuel
--   for each page of the range and up to three more; freewalk has one for each level.
-- Ipc.Pipe, kernel/ipc/pipe.c: pipealloc, pipeclose, pipewrite, piperead. Contents reads the ring
--   buffer as a list, Write and Read describe the two calls, Stream a pipe between its users, Ends the
--   two files.
-- Ipc.Sigset and Ipc.Signal, kernel/include/signal.h, kernel/ipc/signal.c and sys_sigreturn of
--   kernel/ipc/syssig.c: do_sigaction, do_sigprocmask, signal_send, signal_handle with the frame that
--   it puts on the user's stack, sigreturn. Queue treats the list of pending signals with its count
--   and set, Masks the blocked signals, Delivery the loop of signal_handle, Outcome its result, Frames
--   the way into a handler and back. `struct rt_sigframe` is stored and read as a whole.
-- Runtime.Bytes and Runtime.Cstring, kernel/lib/string.c: blocks of bytes, and strings, which Layout
--   reads as the list of their bytes. The loops that stop at a NUL take fuel, and more than the
--   string's length is enough.
-- Fs.Log, kernel/fs/log.c: the log of a build with __USE_XV6FS, with the part of kernel/fs/bio.c that
--   it uses. Every bwrite is recorded, so that a crash can be placed after any of them. Head treats
--   the header block, Recovery and Commit the two procedures, Atomic the crashes, Reserve begin_op
--   and end_op.
-- Fs.Bio, kernel/fs/bio.c: binit, bget, bread, bwrite, brelse, bpin, bunpin. Ring reads the doubly
--   linked list as a list, Scan the two walks of bget, Unique the order that keeps blocks apart, Sound
--   and Reach the cache through any run of calls, Result what bget returns. The walks take NBUF + 1
--   rounds of fuel, one for each buffer and one for the head. Fs.Log has its own, simpler, view of the
--   cache: a block's contents, and pins.
-- Fs.File, kernel/fs/file.c: filealloc, filedup, fileclose, with the calls that the last close makes as
--   values, and what fileread and filewrite call. Slots has the calls on one slot, Counts the table with
--   the handles on each.
-- Fs.Xv6, kernel/fs/xv6fs.c on one device: blocks as bytes and the bitmap (Bitmap, Blocks), inodes on
--   disk and the map from a file's blocks to the disk's (Inode), reading, writing and directories
--   (Data). An inode in core is a value. Free counts the free blocks, and Logged compares the changed
--   blocks with those given to log_write. Inode.Map has what a file owns and the invariant, Grow its
--   bytes while blocks are added, Addr, Entry and Bmap the block map, Leak where it loses a block, Trunc,
--   Itrunc and Truncated the way of itrunc, Disk the inode on disk. Data.Stored, Piece, Write and Read
--   are the loops on the file's bytes, Writei and Readi the calls, Dirent and Lookup directories, Writes
--   counts the blocks given to log_write and Trans puts them through Fs.Log's log_write. The other
--   operations are meant within a transaction whose log has room. Fuel: a
--   round of balloc is a block of the bitmap, one of readi and writei moves a byte at least, one of
--   dirlookup is an entry.
-- Atomic.Spinlock, kernel/atomic/spinlock.c: a lock and any number of CPUs, as a step relation between
--   the points where another CPU can see the lock, under sequentially consistent memory. Exclusion
--   is the invariant, Reach the runs, Nesting the pairs of push_off and pop_off.
-- Atomic.Semaphore, kernel/atomic/semaphore.c and kernel/atomic/cond.c: a semaphore and its threads as a
--   step relation between the points where a thread sleeps or returns, signals to threads apart. Balance states what holds of the
--   counts and the queue, Waiting and Signalling that the steps keep it, Reach the runs.
-- Atomic.Sleeplock, kernel/atomic/sleeplock.c with thread_sleep and thread_wakeup_chan of
--   kernel/sched/thread.c: a sleep lock and its threads, with the rest of the kernel as a step that may
--   wake any of them. Order states what the calls keep, Reach has the runs.
--
-- Outside the model: the locks inside the other components, where a section is one step, their wake-ups
-- of sleeping threads, LoongArch's addresses and page tables, and the ext4 code, which is a copy of
-- lwext4. In the other components user memory is a function argument of the calls that copy from or to
-- it. Mm.Vm.Copy keeps the bytes that it copies apart from the words of the page tables.
pub mod Base
pub mod Mm
pub mod Runtime
pub mod Fs
pub mod Ipc
pub mod Atomic
