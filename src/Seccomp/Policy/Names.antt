-- ===== src/Seccomp/Policy/Names.antt =====
-- seccomp/policy/DefaultPolicy.cc: the names of the calls, list by list.
use sio2jail.Common.{List, [], ◌∷◌, Text, codes}

abbrev pub execution_calls : List Text
execution_calls =
    codes "restart_syscall"
    ∷ codes "getpriority"
    ∷ codes "setpriority"
    ∷ codes "sigaction"
    ∷ codes "sigaltstack"
    ∷ codes "rt_sigaction"
    ∷ codes "rt_sigprocmask"
    ∷ codes "futex"
    ∷ codes "set_tid_address"
    ∷ codes "set_robust_list"
    ∷ codes "getpid"
    ∷ codes "getrandom"
    ∷ codes "sigaltstack"
    ∷ codes "sigsuspend"
    ∷ codes "clock_nanosleep"
    ∷ codes "open"
    ∷ codes "epoll_create1"
    ∷ codes "openat"
    ∷ []

abbrev pub memory_calls : List Text
memory_calls =
    codes "brk"
    ∷ codes "mmap"
    ∷ codes "mmap2"
    ∷ codes "munmap"
    ∷ codes "mremap"
    ∷ codes "mprotect"
    ∷ codes "arch_prctl"
    ∷ []

abbrev pub system_calls : List Text
system_calls =
    codes "getuid"
    ∷ codes "getuid32"
    ∷ codes "getgid"
    ∷ codes "getgid32"
    ∷ codes "geteuid"
    ∷ codes "geteuid32"
    ∷ codes "getegid"
    ∷ codes "getegid32"
    ∷ codes "getrlimit"
    ∷ codes "ugetrlimit"
    ∷ codes "getcpu"
    ∷ codes "gettid"
    ∷ codes "getcwd"
    ∷ codes "uname"
    ∷ codes "olduname"
    ∷ codes "oldolduname"
    ∷ codes "sysinfo"
    ∷ codes "sched_getaffinity"
    ∷ codes "sched_yield"
    ∷ []

abbrev pub time_calls : List Text
time_calls =
    codes "clock_gettime"
    ∷ codes "clock_gettime64"
    ∷ codes "clock_getres"
    ∷ codes "clock_getres_time64"
    ∷ codes "gettimeofday"
    ∷ codes "time"
    ∷ []

abbrev pub read_calls : List Text
read_calls =
    codes "read"
    ∷ codes "readv"
    ∷ codes "dup"
    ∷ codes "fcntl"
    ∷ codes "fcntl64"
    ∷ codes "pread64"
    ∷ []

abbrev pub socket_calls : List Text
socket_calls =
    codes "socket"
    ∷ codes "socketpair"
    ∷ codes "connect"
    ∷ codes "bind"
    ∷ codes "listen"
    ∷ codes "accept"
    ∷ codes "accept4"
    ∷ codes "getsockname"
    ∷ codes "getpeername"
    ∷ codes "sendto"
    ∷ codes "recvfrom"
    ∷ codes "sendmsg"
    ∷ codes "recvmsg"
    ∷ codes "shutdown"
    ∷ codes "setsockopt"
    ∷ codes "getsockopt"
    ∷ []

abbrev pub poll_calls : List Text
poll_calls =
    codes "poll"
    ∷ codes "ppoll"
    ∷ codes "epoll_create"
    ∷ codes "epoll_create1"
    ∷ codes "epoll_ctl"
    ∷ codes "epoll_pwait"
    ∷ codes "epoll_pwait2"
    ∷ codes "epoll_wait"
    ∷ codes "select"
    ∷ codes "pselect6"
    ∷ []

abbrev pub file_calls : List Text
file_calls =
    codes "stat"
    ∷ codes "stat64"
    ∷ codes "fstat"
    ∷ codes "fstat64"
    ∷ codes "fstatat64"
    ∷ codes "newfstatat"
    ∷ codes "lstat"
    ∷ codes "lstat64"
    ∷ codes "listxattr"
    ∷ codes "llistxattr"
    ∷ codes "flistxattr"
    ∷ codes "readlink"
    ∷ codes "readlinkat"
    ∷ codes "access"
    ∷ codes "faccessat"
    ∷ codes "getdents"
    ∷ codes "getdents64"
    ∷ []

abbrev pub statfs_calls : List Text
statfs_calls =
    codes "statfs" ∷ codes "statfs64" ∷ codes "fstatfs" ∷ codes "fstatfs64" ∷ codes "statx" ∷ []

abbrev pub change_calls : List Text
change_calls =
    codes "unlink"
    ∷ codes "unlinkat"
    ∷ codes "symlink"
    ∷ codes "symlinkat"
    ∷ codes "mkdir"
    ∷ codes "mkdirat"
    ∷ codes "setxattr"
    ∷ codes "lsetxattr"
    ∷ codes "fsetxattr"
    ∷ []
