-- ===== src/Lib.antt =====
-- A verification library for the thread scheduler of this repository, a Pintos kernel with first come
-- first served, round robin, shortest job first and a multi-level feedback queue.
--
-- The program's parts, the files that model them, and how they interact:
-- - FixedPoint: pintos/src/threads/fixedpoint.h, 17.14 numbers in an `int`.
-- - LinkedList: pintos/src/lib/kernel/list.c on the sequence of a list's elements. A list that is sorted
--   in place becomes a function to the new sequence; `none` is a failed ASSERT. Sort and Ordered hold
--   the proofs.
-- - LinkedList.Links: the same file on the pointers of the elements, for lists whose elements are known
--   by their addresses. Segment has chains of elements, Insert and Remove the two changes of a chain,
--   Refine the operations against those on sequences. Turn and
--   Reverse have list_reverse.
-- - Kernel: the memory of the kernel. State has struct thread and the static variables of
--   pintos/src/threads/thread.c, Monad the statements that read and write them, Interrupt the interrupt
--   level of pintos/src/threads/interrupt.c, Ticks the counter of pintos/src/devices/timer.c.
-- - Scheduler: schedule, thread_block, thread_unblock and thread_yield of pintos/src/threads/thread.c.
-- - Mlfqs, Sjf, Tick: the parts of thread.c for the feedback queue, for shortest job first, and
--   thread_tick, which chooses between them at a timer interrupt.
-- - Synch: pintos/src/threads/synch.c. Semaphores keep their waiters in the kernel's memory and call
--   thread_block and thread_unblock. Up, Down and Lock have the semaphores and locks, Signal
--   and Condition the condition variables.
-- - Lifecycle: how thread.c creates and ends threads, and the idle thread.
-- - Timer: sleeping, the timer interrupt (pintos/src/devices/timer.c) and intr_handler of interrupt.c.
-- - System: the kernel as a step relation of calls, returns and timer interrupts. Steady has the rules
--   for what no statement but the clock's changes, Threads and Services apply them to every function,
--   Clock to every run; Fairness is about runs in which threads yield. Kernel.Keeps has the relations
--   between the start and the end of code.
-- - Bitmap: pintos/src/lib/kernel/bitmap.c. Bits has the single bits, Ranges the searches; Digits what
--   the operations on words do to binary digits.
-- - Palloc: pintos/src/threads/palloc.c over the bitmaps. Pages says when the pools are well-formed, Start
--   has palloc_init, Get and Free the two operations.
-- - Arithmetic: pintos/src/lib/arithmetic.c, with `none` for a divide error. Small and
--   Large divide by small and large numbers, Zeros counts leading zeros, Quotient has the whole.
-- - Memory: the functions of pintos/src/lib/string.c on blocks of bytes; Move has the copies.
-- - CString: those on strings. Spell says which string a memory holds at a pointer, Compare, Token and
--   Append have strcmp, strtok_r, strlcpy and strlcat.
-- - Stdlib: pintos/src/lib/stdlib.c. Heap, Heapify and Sort hold the sort, Rearranged what it is to have
--   the same elements, Search the binary search, Atoi and Number the reading of numbers.
-- - Random: pintos/src/lib/random.c; Bytes has what its array and its buffers hold.
-- - Hash: pintos/src/lib/kernel/hash.c. Count counts elements in an array of lists, Table has the set
--   that a table holds, Rehash the change of the number of buckets, Access the operations, Iterate the
--   iterator.
-- - Prelude holds what the modules share; Samples a small kernel, on which the theorems are applied.
--
-- How state and operations correspond to the code: a function of C is a function of the same name from
-- the kernel's state to its result and the new state, or `none` where the kernel ends (a failed
-- ASSERT, a page that is not live, a divide error). The comparisons of threads, wakeup_cmp,
-- priority_cmp and duration_cmp, are total: a page that is not live counts as 0 in them. A call that
-- switches threads has no result, so thread_create does not give the tid. A switch of threads happens
-- in the middle of a call. What a call has left to do when its thread runs again is a frame on that
-- thread's saved stack; schedule pushes `after_schedule`, and System.resume goes on at the top frame.
-- The functions below that model the code up to the switch end where the other thread goes on. The
-- invariant of the results below is Scheduler.Invariant.IsConsistent: each thread on a queue is in the
-- state that the queue asks for and on no other, the current thread runs and is on none, and a handler
-- runs with interrupts off.
--
-- Bounds and fuel: integers are mathematical, and a value stored in an `int` is wrapped to 32 bits, in
-- an `int64_t` to 64. list_sort and its passes recurse on fuel, the length of the list, which is shown
-- to be enough. A loop to the end of a string, and the loops of sort and binary_search, recurse on
-- fuel too; the theorems on them have the least fuel that is enough as a hypothesis, or, for sort,
-- none. In string.c a memory is a function from addresses to bytes, pointers do not wrap, and a read
-- of an address is never a fault. The loop of rehash recurses on the number of buckets it starts from.
-- The elements of an array are values, and the bytes of one move together. A bitmap has fewer than
-- 2^31 bits, so that no index wraps. The bitmap of a pool is kept apart from the bytes of its pages,
-- before which it stands, and the words that a new one finds there are arguments. The threads of a
-- kernel are a function from addresses to pages, and a list of them has no element twice, as struct
-- thread has one `elem`.
--
-- Not modelled: the lock of a pool of pages, so that a call of palloc_get_multiple is one step;
-- output, port input and output, the interrupt descriptor table, busy waiting, user programs and the
-- file system, which the kernel of the scheduling study is built without.
pub mod Prelude
pub mod FixedPoint
pub mod LinkedList
pub mod Kernel
pub mod Scheduler
pub mod Sjf
pub mod Mlfqs
pub mod Tick
pub mod Synch
pub mod Lifecycle
pub mod Memory
pub mod Palloc
pub mod CString
pub mod Stdlib
pub mod Random
pub mod Hash
pub mod Timer
pub mod System
pub mod Samples
pub mod Bitmap
pub mod Arithmetic
