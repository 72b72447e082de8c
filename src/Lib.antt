-- ===== src/Lib.antt =====
-- SimpleAsPi: an operating system kernel for the Raspberry Pi, in which tasks, each with its own
-- registers, run on several cores. A task calls the kernel, which works on the lists that the task
-- is in: those of its core, of the runnable, sleeping, blocked and moving tasks, and of queues.
--
-- The parts, and the code that they model:
--   Common        tests on numbers, lists of addresses, functions updated at one address
--   Dll           Utilities/doubly_linked_list.h. Links are the next and prev pointers of all items
--                 by address; a list is known by its head pointer, 0 if it is empty. Ring and IsList
--                 say which items, in which order, the pointers stand for.
--   Mpsafe        Utilities/mpsafe_dll.h. What a core does to a shared list while it has the head
--                 word (work), and the steps by which several cores take the word, work and store
--                 the new head (Move, Step, Reach), with change_word_if_equal as one atomic step.
--   Tasks         struct OSTask of OSTask/ostask.h, by address; svc_registers of CK_types.h
--   Kernel        OSTask/workspace_ostask.h: the state of one core and the shared state; a call is a
--                 function M on it that ends, stops in PANIC, waits for another core, or is in a loop
--                 when the fuel runs out. Handles, errors, save_task_state and stop_running_task.
--   Sleep         OSTask/sleep.c: put_to_sleep, wakey_wakey, add_woken, sleeping_tasks_tick
--   Locks         OSTask/locks.c: TaskOpLockClaim (lock_claim) and TaskOpLockRelease (lock_release)
--   Controllers   OSTask/ostask.h: push_controller to change_current_controller
--   Blocks        OSTask/pipes.c: unmap_and_free and the table that insert_pipe_in_gap fills
--   Pipe          OSTask/pipes.c: a pipe, its amounts and addresses
--   Pipes         OSTask/pipes.c: the calls on pipes, PipeWaitForSpace to PipeNotListening; Create:
--                 PipeCreate, with the page that claim_contiguous_memory returns as a parameter
--   Scheduler     OSTask/ostask.c: TaskOpYield, TaskOpSleep, IdleTaskYield, for_core
--   Calls         OSTask/ostask.c: TaskOpCreate, TaskOpRunForTask to TaskOpSwitchToCore
--   Queues        OSTask/queues.c: QueueCreate, QueueWait, queue_running_OSTask
--   Svc           OSTask/ostask.c: ostask_svc, with the lock around the calls on pipes
--   Heap          SimpleHeap/heap.c, on the words of memory by address
--   RawMemory     RawMemory/raw_memory_manager.c: free_contiguous_memory and claim_contiguous_memory,
--                 on words of bits (Bits) and the entries of early_released_pages
--   Mmu           Processor/VMSAv6/mmu.c: walk_global_tree, on the words of the translation tables
--   Memory        OSTask/memory.c: the table of a slot's application memory, which stands for a list
--                 of blocks (Lists); find_block, map_device_pages, app_memory_top, block_containing,
--                 and TaskOpPhysicalFromVirtual of OSTask/ostask.c. claim_contiguous_memory is a
--                 parameter of app_memory_top.
--   Texts         Modules/osmodule.c: module_name_match, riscoscmp, split_command, search_list,
--                 count_params and the checks of run_module_code, on the bytes of memory
--   Modules       Modules/osmodule.c: new_module, append_module_to_list, find_module_by_chunk,
--                 OS_Module 12 and do_OS_ServiceCall, on the modules by address
--   Legacy        Legacy/kernel_swis.c: do_convert, the calls that write numbers as text; Blocks:
--                 cb_array and cba_free, arrays of blocks that the patched kernel allocates
--   Tests         the properties at concrete inputs
--
-- Numbers are words of 32 bits with their wrap-around written out where the source computes with
-- them (indices of pipes, sizes, ticks); addresses are numbers, and 0 is no item. Calls of other
-- cores are steps of the protocol in Mpsafe; in Kernel a list operation is the whole call.
--
-- Loops are recursion on fuel. A loop over a list takes one unit of it for each item, and those of
-- unmap_and_free one for each used entry of the table, so the length of the list or the table is
-- enough. Without fuel for_core, find_handler, place_loop, end_loop, find_page, close_gap and
-- shift_loop return none, and wanted_loop and find_waiter what they have. The loops of Memory, Texts,
-- Modules and Legacy return none, and those of RawMemory runs_on, for a word of bits with 33 rounds and
-- for a digit with 10, which are enough. A text takes one unit for each character and its end.
--
-- Not modelled: assembler code and the processor's registers by mode, the changes of translation
-- tables and caches, interrupts, boot, logging, the log pipe's calls, Spawn and EndTask,
-- the code of modules and what runs it, the rest of Legacy, and Devices. The locks around the calls of
-- RawMemory and the memory management unit are left out. The asserts on an item to be attached are
-- conditions of the theorems.
pub mod Common
pub mod Dll
pub mod Mpsafe
pub mod Tasks
pub mod Sleep
pub mod Blocks
pub mod Pipe
pub mod Kernel
pub mod Locks
pub mod Controllers
pub mod Pipes
pub mod Scheduler
pub mod Calls
pub mod Queues
pub mod Svc
pub mod Heap
pub mod Texts
pub mod Legacy
pub mod Modules
pub mod Mmu
pub mod RawMemory
pub mod Memory
pub mod Tests
