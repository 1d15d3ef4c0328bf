-- ===== src/Scheduler.antt =====
-- scheduler.h and scheduler.cpp, method by method. A Thread pointer is an address in the heap.
mod Threads
mod Dispatch
mod Operations
mod Lifetime
unfoldable pub use Threads.*
unfoldable pub use Dispatch.*
unfoldable pub use Operations.*
unfoldable pub use Lifetime.*
