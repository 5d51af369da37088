-- ===== src/Lib.antt =====
-- Linuxemu: an emulator that runs Linux programs for ARM on QNX, in one process with the guest. The
-- emulator maps the guest's files at addresses of its own, replaces the instructions that only
-- Linux could execute by one that traps, and answers each trap with calls of the host.
--
-- Which file is about which part:
--   Memory         src/guest_memory.c: Memory.Table is the table of runtime mappings with
--                  runtime_replace_locked and its callers, Memory.Segments loading and rolling back
--                  of the segments of ELF files, Memory.Query the questions asked of both,
--                  Memory.Break the program break, Memory.Page the page size.
--   Patch          src/arm_patch.c: the table of patches over the words of memory; Patch.Sections is
--                  arm_patch_elf_mapping.
--   Futex          src/linux_futex.c: the list of waiters; Futex.Deadline the times, Futex.Command the
--                  decoding of the call, Futex.Reach the interleavings of threads.
--   GuestPath      src/guest_path.c: normalize_guest_path; GuestPath.Links is resolve_guest_symlinks,
--                  GuestPath.Resolve guest_path_resolve, and GuestPath.At the other ways to a host
--                  path and the changes of directory.
--   Elf            src/elf_loader.c: Elf.Checks is validate_program_header, Elf.Sections the loop of
--                  patch_executable_sections, Elf.Interpreter the path of the interpreter, Elf.Load
--                  load_elf_object and Elf.Image load_guest_image; Elf.Restore and Elf.Loading what
--                  they leave; Elf.Types the structures of ELF files.
--   Thread         src/guest_thread.c: the state of a thread and what the calls for the current thread
--                  do to it; Thread.Pending the signals that wait, Thread.Tid the numbers,
--                  Thread.Clone guest_thread_clone, Thread.Exit and Thread.Retire the end of a thread,
--                  Thread.Stack the unmapping of a stack that is in use, Thread.Fork the start and the
--                  child of a fork.
--   Signal         src/guest_signal.c: Signal.Number and Signal.Sets the numbers and sets of both
--                  systems, Signal.Frame what a frame saves, Signal.Deliver and Signal.Start the start
--                  of a handler, Signal.Return its end, Signal.Pend and Signal.Restart the signals that
--                  arrive around system calls, Signal.Mirror both masks, Signal.Mask, Signal.Action
--                  and Signal.Altstack the calls of the guest.
--   Trap           src/trap.c: trap_handler over all of these; Trap.Calls a replaced instruction.
--   MapCalls       src/linux_syscall.c: mprotect, munmap and (MapCalls.Map) mmap2, over Memory and Patch.
--   Poll           src/linux_poll.c: poll, ppoll, select and pselect; Poll.Events, Poll.Timeout and
--                  Poll.FdSets translate, Poll.Wait changes the mask during a wait.
--   Startup        src/runtime.c: create_guest_stack; Startup.Vector is what a program reads in its words,
--                  Startup.Visible which entries of the environment it gets.
--   Abi            src/linux_abi.c: linux_errno_number.
--   Words, Bits    src/util.c, rounding to pages on 32-bit words, and laws of bitwise and.
--   Prelude        names of the libraries, Boolean tests and lists that all parts share.
-- A definition has the name of the C function that it models; a loop that needed a name of its own
-- has one that says what a round does. The tests of a part stand in its module Tests.
--
-- State is passed explicitly: a function takes the tables that it changes and returns new ones. A
-- table that the code fills and empties at its end is a list with the last entry first. A mutex
-- orders the calls, so that a run of several threads is a sequence of calls; Futex.Reach has one
-- step for each turn with the lock and one for a signal. uintptr_t has 32 bits, and where the code
-- could wrap around, its own guard or a reduction modulo 2 ^ 32 is written out. So it is for the
-- counts of the queues of realtime signals, which the code lets overflow.
--
-- A word of flags is a number; the two words of a signal mask are given by their bits. A frame on a
-- guest's stack is a record that stands at its address; its two parts do not overlap with anything
-- else. current_thread() is an argument, none for a thread that is not the guest's. A handler runs on
-- the thread that it interrupts, between two calls, so that a delivery is one step.
--
-- Calls of the host are parameters: where mmap maps and whether it fails, what a read of the file
-- brings, what lstat and readlink say of a path, what the clocks show, what a semaphore answers,
-- where memory for a thread is found and whether it can be started, the errors of mprotect, munmap,
-- msync, fstat, sigaction, sigprocmask, sigsuspend, kill and pthread_kill, how poll and select end.
-- linux_syscall_dispatch is a parameter of the trap handler. The host does not write to a page that is
-- not writable: where arm_patch_rollback stores to one, load_guest_image ends in a fault.
--
-- Fuel: runtime_range_owned_locked has one round for each byte of the range and one more, since every
-- round but the last moves the cursor on; the loop that aligns a section's start has four rounds, one
-- for each residue; the loop over symbolic links is on the number of links that are left of 40, which
-- is the code's own count; allocate_guest_tid has two rounds, since of two numbers in a row one at
-- least has low bits that are not 0.
--
-- Not modelled: src/guest_process.c, src/linux_socket.c, src/linux_time.c, src/linux_termios.c and
-- src/linuxemu.c, and of src/linux_syscall.c all but the calls that map memory, which for the greater
-- part pass calls on to the host; of src/runtime.c the way into the guest, which is assembler; of
-- src/guest_thread.c guest_thread_exit; the probes, the tests and the scripts.
pub mod Prelude
pub mod Bits
pub mod Words
pub mod Abi
pub mod Elf
pub mod Memory
pub mod Patch
pub mod Futex
pub mod GuestPath
pub mod Thread
pub mod Signal
pub mod Poll
pub mod Trap
pub mod MapCalls
pub mod Startup
