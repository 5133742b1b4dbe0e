-- ===== src/Uloop.antt =====
-- uloop.c and uloop.h, the event loop: its timers, its child processes and its signals.
pub mod Signals
pub mod Time
pub mod Fds
pub mod Done
pub mod Processes
pub mod Timers
mod Tests
