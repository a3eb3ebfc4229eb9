-- ===== src/Lib.antt =====
-- yjkos: a small kernel for the i586. This library models the parts of it that keep track of memory
-- and data, and of its keyboards: the functions on numbers and bytes (kernel/lib/miscmath.c), the
-- bitmap (kernel/lib/bitmap.c), the physical memory manager (kernel/mem/pmm.c), which keeps the
-- state of its blocks in a bitmap, the queue (kernel/lib/queue.c), the linked list
-- (kernel/lib/list.c), the scheduler's queues (kernel/tasks/sched.c), the reader of paths
-- (kernel/lib/pathreader.c), string functions (kernel/lib/strutil.c), the state of the keyboard
-- (kernel/io/kbd.c) and the driver of a PS/2 keyboard (kernel/dev/ps2kbd.c), which tells it the
-- keys.
--
-- Prelude passes on the names of the libraries and has tests into Bool, C arrays as lists, the
-- error numbers, and `Run`: the result of code that can stop the kernel, by a failed assertion, a
-- call of `panic`, or an access outside an array. Bits has the digits and shifts of machine words.
--
-- MiscMath: kernel/lib/miscmath.c, each function under its name; `none` is a failed assertion.
-- MiscMath.Align and MiscMath.Bytes have their properties.
--
-- Bitmap: kernel/lib/bitmap.c, each function under its name, the two static ones as
-- `find_first_in_word` and `find_last_contiguous_in_word`. A bitmap is the list of its words. The
-- loops over words have as fuel the words that are left, those over the digits of a word 32 or 33
-- rounds, and the unbounded loop of `bitmap_find_set_bits` one round more than the bitmap has bits,
-- each round starting past the run that the one before found; a loop that has not ended is apart
-- from one that returns -1. A `long` is the source's while a bitmap has fewer than 2^31 bits.
-- Bitmap.Spec says what the bits of a bitmap and the results of searches are; Scan and Find have
-- the searches for a bit and the end of a run, Runs the search for a run, Query, Range and Single
-- the tests and updates.
--
-- Buddy: the scheme of the comment at the top of kernel/mem/pmm.c as a specification, a tree of
-- blocks some of which are available, with what splitting, taking, freeing and joining do to the
-- set of free blocks.
--
-- Pmm: kernel/mem/pmm.c. `PagePool` is `struct pagepool`; `alloc_from_pool` is cut at its loops and
-- where the block size and the level are known (`to_block_size`, `find_block`, `split_loop`,
-- `take_block`), `free_from_pool` at its loop. Halving loops have 32 rounds, which an unsigned
-- 32-bit number cannot exceed; the doubling loop has 33. Pmm.Sizes has the arithmetic, Pmm.Levels
-- and Pmm.View read a bitmap as a buddy tree, Pmm.Alloc and Pmm.Free have allocation and freeing.
-- Pmm.Pools: the entry points over the list of pools. The results of `heap_alloc` in
-- `pmm_register_mem` are given by a function of the round, since the heap is not modelled.
--
-- Queue: kernel/lib/queue.c, on a buffer that is a list of bytes. Queue.Fifo reads it as the
-- sequence of its items, Queue.Operations has the operations on that sequence.
--
-- LinkedList: kernel/lib/list.c. A node is an address and its fields are functions of the address,
-- which the operations change as the code does. LinkedList.Segments says which sequence of nodes a
-- list stands for, LinkedList.Splice what a change of neighbors does to it; Insert, InsertAt and
-- Remove have the operations. The keyboard's and the driver's lists are such sequences.
--
-- Sched: the queues of kernel/tasks/sched.c, each function under its name, on the sequence of the
-- queues. `get_queue` is cut at its loop (`find_place`), `pick_next_queue` at its loops
-- (`find_ready`), which go over the queues from the current one on and then over all. Sched.Order,
-- Ready and Pick have their properties. A new queue's address is what the heap returns.
--
-- PathReader: kernel/lib/pathreader.c and `kstrchr` of kernel/lib/strutil.c. A pointer into a path
-- is the rest of the path. The loop of `pathreader_next` has a round for each character of the
-- path, and each takes one at least. PathReader.Components says what the names of a path are.
--
-- Strutil: the comparisons and the string matcher of kernel/lib/strutil.c, with the character
-- classes of kernel/lib/libc/ctype.c. The loop over spaces has a round for each character that is
-- left, that over a word one for each character of the matched part. Strutil.Compare,
-- Strutil.Matcher and Strutil.Words have their properties.
--
-- Kbd: kernel/io/kbd.c, with its static variables as the record `Kbd`. `kbd_key_pressed` and
-- `kbd_key_released` are cut at their switches and where the key to report is known
-- (`set_modifier`, `press_lock`, `report_event`). Kbd.Keys has the keys and the table `KEYMAP`,
-- Kbd.Layout what the US layout has for them, which Kbd.Characters compares with the table,
-- Kbd.Reached the states that calls lead to, Kbd.Invariant, Kbd.Locks and Kbd.Events the
-- properties.
--
-- Ps2Kbd: kernel/dev/ps2kbd.c. A byte that comes is a step of `KbdContext`; `ps2_op_bytereceived`
-- is cut at its two switches (`dispatch`, `data_received`). Ps2Kbd.Receive has the replies to
-- commands, Ps2Kbd.Commands the requests and the initialization. What the port's stream answers to
-- a byte, an error or a count, is a function of the bytes that it was given, whether heap_alloc
-- succeeds a function of the number of the request, and a request that waits takes the bytes of a
-- list, each of which is a round of its loop; at the end of the list it still waits. Ps2Kbd.Codes
-- has the bytes of each key in scancode set 2, Ps2Kbd.Typing and Strokes what the driver and the
-- keyboard make of them; Input, Bounds, ReplyBounds and Safety are about keybytes, Replies, Acks,
-- Waiting and Retries about replies, Data, Blocked and Refused about a stream that fails and ACKs
-- in a sequence. Addresses of commands are numbers, a command that left the queue is kept in
-- `finished`, those given to heap_free are listed in `freed`, and a byte outside keybytes stops the
-- kernel.
--
-- Not modelled: the interrupt flag and the messages of the modelled functions, the heap, virtual
-- memory, trees, most string functions, threads and what waits for mutexes, file systems, devices,
-- terminals and the architecture's code, and the tests that run in the kernel.
pub mod Prelude
pub mod Bits
pub mod MiscMath
pub mod Bitmap
pub mod Buddy
pub mod Pmm
pub mod Queue
pub mod PathReader
pub mod Strutil
pub mod Kbd
pub mod Ps2Kbd
pub mod LinkedList
pub mod Sched
