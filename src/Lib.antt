-- ===== src/Lib.antt =====
-- Nachos with the lock server of the network assignment: a model of its synchronisation, of its
-- distributed locks, conditions and monitor variables, of its lists, of its processor and virtual
-- memory, of its files on the disk and of its system calls on locks and condition variables. Paths
-- are relative to nachos-csci402/code.
--
-- The parts of the program and where they are modelled:
--   * network/nettest.cc, Server: one thread per machine that keeps a table of locks, one of
--     conditions and one of monitor variables, and serves thirteen requests. Network/State has the
--     tables and the functions find...ByName and construct...; Network/Server has a module per group
--     of requests: Locks (AQ, RL), Conditions (WT, SG, BC), Create (CL, CC, CM), Destroy (DL, DC, DM),
--     Variables (GM, SM); Relay hands a request for an unknown object to the message handler, and
--     Dispatch is the loop of the thread as a step relation.
--   * network/nettest.cc, MessageHandler: the second thread of each machine. It asks the handlers of
--     the other servers who has an object, and counts the answers. Network/Handler.
--   * threads/system.h, Message: Network/Message, with the replies of sendMessage,
--     sendErrorMessage and sendSuccessMessage.
--   * threads/scheduler.cc, threads/thread.cc: Threads/Kernel. threads/synch.cc: Threads/Semaphore,
--     Threads/Lock, Threads/Condition. Threads/System lets threads call these in any order, with
--     interrupts between the calls; Inv is the invariant of the queues and locks, Safety proves it,
--     and Ownership and Wakeups say who gets a lock and who is woken.
--   * machine/translate.cc with a TLB, the inverted page table of threads/system.cc, HandlePageFault of
--     userprog/exception.cc and the parts of userprog/addrspace.cc that touch these tables:
--     VirtualMemory/State, Translate, PageFault and Spaces. VirtualMemory/System lets processes
--     access memory, fault, switch, load and fork in any order. Coherent is the invariant of the
--     tables; Evictions, Refill, Handling, Switches and Isolation prove it, and Retry, Completes,
--     Swap and Memory say what an access, the handler and the swap file give.
--   * userprog/exception.cc, the calls on locks and condition variables without the network:
--     SystemCalls/Objects (the tables), Locks, Conditions and Calls. They use the model of synch.cc.
--     Sound is the invariant of the tables; Keeps, KeepsConditions and Reachable prove it, Foreign,
--     Creating, Dangling, Returning and Faultless say what the calls do. SystemCalls/UserCopy has
--     copyin and copyout, over the virtual memory, and UserFaults what they do at a page fault.
--   * machine/mipssim.cc and mipssim.h, and RaiseException of machine/machine.cc up to the kernel's
--     handler: Processor/Words (the arithmetic of `int`), Registers, Tables (Instruction::Decode),
--     Multiply (Mult), Execute (the operations without memory) and Step (those with memory, and
--     OneInstruction). An instruction takes the tables of the virtual memory and the registers to
--     those after it, with how it ended. Processor/Running lets programs run, with the kernel at their
--     traps. Rounds and Products are on Mult, Overflow on ADD and SUB, Decoding on the tables; Bits,
--     Accesses, Sound, Computing, Fair, Executing, Finishing and Performing on a whole instruction.
--   * threads/list.cc and list.h: LinkedLists/Nodes has the elements in a heap and the operations of
--     List, with the address of a new element as a parameter. LinkedLists/Sequence says what they do
--     to a sequence; Chains, Inserting, Effects, Refines and Sorted prove it.
--   * userprog/bitmap.cc: FileSystem/Bitmap, with the facts on its bits in FileSystem/Bits.
--     filesys/filehdr.cc: FileSystem/FileHeader, and what Allocate takes and
--     Deallocate gives back in FileSystem/Allocation and FileSystem/RoundTrip.
--     filesys/directory.cc, and Create and Remove of filesys/filesys.cc: FileSystem/Directory, with
--     FileSystem/Names on names and FileSystem/Files on whole files.
--
-- How the code is read. A function that changes global tables takes the state and gives the new one
-- with the packets that it sent, in order. A table is a function of the index and a limit: an
-- access outside the limit is the fault `out_of_bounds`, one through a null pointer `null_pointer`,
-- one to freed memory `dangling`, an ASSERT that fails `assertion`, and nothing is said of the
-- state after a fault. A name of the server's tables has 20 bytes; a longer one is `out_of_bounds`.
-- Memory that the system hands out is taken as zeroed, so the name of an entry
-- that was never constructed is null; where the code sends memory that it never set, the value is a
-- parameter of the delivery. Outside the processor `int` is an integer without overflow; the
-- processor's values are patterns of 32 bits, and overflow of an `int` there wraps, as its code
-- relies on; only a division without a quotient is the fault `overflow`. A WT on a lock of another
-- server stops the server thread until the answer is there: its second half is a step of its own.
-- In the kernel an operation runs with interrupts off and is one step up to the switch; what a
-- thread does after the switch is the step `resumes`. The rest of a Wait that a user program called is
-- `wait_woken`, with the look at whether its lock is still there. A CreateLock or CreateCondition takes
-- what copyin returns as an argument, and a length of the name below -1, for which the kernel's buffer
-- cannot be allocated, is left aside.
--
-- In the virtual memory a number of a page and an address are not negative, a word is its pattern of 32
-- bits on a host that stores the low byte first, the arrays that are indexed by process and page are
-- taken to have room, and the size that an executable's header gives is a parameter. The handler of page
-- faults holds a lock and is one step.
--
-- Fuel: the random choice of a page to evict takes the list of its draws, and copyin a list with the
-- policy of each page fault; both say so when the list does not end the loop. The loops of
-- threads/list.cc take their rounds, as many as there are elements. Else only Broadcast of
-- threads/synch.cc has a loop that need not end, and its fuel is the number of rounds; one more than the
-- number of threads that wait is enough. All other loops are recursion on a list or on a number.
--
-- Not modelled: the post office and the network device (a delivery is a parameter of a step), the
-- text form of a message, the devices of the simulated machine, its debugger and its clock, the
-- register and stack switch, the system calls on files and processes, open files and the disk, the debug output, and
-- the simulations and tests that use the kernel.
pub mod Base
pub mod FileSystem
pub mod LinkedLists
pub mod Network
pub mod Processor
pub mod SystemCalls
pub mod Threads
pub mod VirtualMemory
