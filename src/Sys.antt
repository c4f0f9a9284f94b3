-- ===== src/Sys.antt =====
-- The system call handlers of src/sys.
pub mod Memory
pub mod Dup
pub mod Fcntl
pub mod EventFd
pub mod File
pub mod Futex
pub mod Signal
pub mod Process
pub mod Credentials
pub mod Epoll
pub mod Poll
pub mod PathResolve
pub mod PathCalls
pub mod FileStat
pub mod Dirs
pub mod Guest
pub mod Identity
pub mod Ioctl
pub mod Time
pub mod Udp
pub mod Vectors
pub mod Addrinfo
pub mod Resolver
pub mod OpenFile
