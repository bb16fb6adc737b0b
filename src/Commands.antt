-- ===== src/Commands.antt =====
-- cmd/: the processes of the services. Each is given what the operating system, its listener and its
-- signals do.
pub mod QueueService
pub mod Services
pub mod CollectorService
mod Tests

-- A process as far as it has run. `failed_exit` is `os.Exit(1)`, which leaves out deferred calls.
pub data Process : Type 0 where
  failed_exit clean_exit crash running : Process
