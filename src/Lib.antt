-- ===== src/Lib.antt =====
-- sio2jail runs an untrusted program in a sandbox, watches it with ptrace and seccomp, enforces its
-- limits, and prints a verdict. This library models the supervising process and proves properties
-- of it.
--
-- The parts, and the files that model them (paths are from the repository's root; the comments of
-- the other files leave out src/):
-- - System.antt: the operating system as a parameter (`Kernel`, which answers a call from the calls
--   made so far), and the checked calls of src/common/WithErrnoCheck.h and src/common/Assert.h. A
--   computation `M` reads the kernel, extends the history of calls, changes the shared result
--   builder, and may throw.
-- - Executor.antt: src/executor/Executor.cc, the fork and the loop that waits for the child, asks
--   the listeners about each status, and obeys their action.
-- - Tracer.antt: src/tracer/TraceExecutor.cc (TraceExecutor.antt), handleTraceeSignal
--   (Signals.antt), src/tracer/Tracee.cc (Tracee.antt) and the tree of processes of
--   src/tracer/ProcessInfo.cc (ProcessTree.antt). It is one of the supervisor's listeners, and has
--   listeners of its own.
-- - Limits.antt: the listeners of src/limits/, for time, memory, output and threads.
-- - Seccomp.antt: src/seccomp/, the filters (Filter.antt), the actions (Action.antt), what is used
--   of libseccomp (Library.antt), the ids and the order of the rules (Context.antt), the calls that
--   make and load the filter (Context/Builder.antt), the rules of each call (Rules.antt), the
--   choice of an action for a traced call (Listener.antt), the default policy (Policy.antt) and the
--   emulation of rdtsc (TimeRandomizer.antt).
-- - Printer.antt: src/printer/, the builder that all listeners share, its setters and the five
--   formats.
-- - ProcFs.antt: src/common/ProcFS.cc; Stream.antt: what is used of an input stream.
-- - App.antt: src/s2japp/, the sizes, times and amounts of the command line (Arguments.antt), the
--   bind mounts (BindMounts.antt), the features (Features.antt), the settings (Settings.antt), the
--   exit codes and the order of the listeners (Wiring.antt), the child's set-up by all listeners up
--   to execv (Child.antt: executeChild of src/executor/Executor.cc), the run with all listeners
--   over one state (Supervisor.antt: handleRun of src/s2japp/Application.cc), with split and
--   checkKernelVersion of src/common/Utils.cc (Utils.antt, Utils/Version.antt).
-- - Namespaces.antt, Privileges.antt, Files.antt: the listeners of src/ns/, src/priv/ and
--   src/files/, which set up the child, and src/common/FD.cc.
-- - Perf.antt: src/perf/PerfListener.cc, the configuration (Config.antt, Devices.antt) and the
--   counting (Counter.antt).
-- - Common.antt: Boolean tests, lists, texts as lists of bytes, decimal numerals, machine words and
--   bits.
--
-- How they interact: the supervisor's loop turns a status into an event and gives it to its
-- listeners; the tracer handles the event, asks the trace listeners (the limits and seccomp) and
-- kills or resumes the tracee; every part reports to the one builder, which is printed at the end.
-- A C++ method that changes its object is a function that returns the new state. Listeners are
-- records of callbacks over a state that they share; App/Supervisor/Listeners.antt makes them for
-- the whole program. The files named Kept and Judged follow a property of that state through the
-- callbacks, the rounds and the run: it holds, or a kill reason is given.
--
-- Machine integers are natural numbers with the wrap-around written out. The loops without a bound
-- in their data run on fuel: the supervisor's, of which one unit for each round is enough, the
-- writing to a descriptor, where more units than bytes are enough if each write gets on, the
-- closing of descriptors, which repeats a call after EINTR, and split, whose fuel is enough for a
-- delimiter that is not empty. A kernel's answer is arbitrary, and where a theorem needs one it is
-- a hypothesis.
--
-- The run stops with an exception where the fuel for the closing of files is not enough, and where
-- the opening of counters is undefined. Not modelled: TCLAP's parser of the command line with its
-- texts, the log with its listener, which only writes, and the destructors of the timer, the
-- counters and the contexts of libseccomp; libseccomp's compiler of filters and the C library are
-- not in the repository.
pub mod Common
pub mod Stream
pub mod System
pub mod ProcFs
pub mod Printer
pub mod Executor
pub mod Tracer
pub mod Seccomp
pub mod Limits
pub mod Files
pub mod Namespaces
pub mod Privileges
pub mod Perf
pub mod App
