-- ===== src/Worker.antt =====
-- worker.c and worker.h: what a worker thread does with a job.
pub mod Resolve
pub mod Send
pub mod Relay
pub mod Process
pub mod Prefetch
pub mod Format
pub mod Handle
pub mod Main

-- `enum host_status`; `host_ok` is `ok` and `host_error` is `error`.
pub data HostStatus : Type 0 where
  host_ok host_error not_found blocked : HostStatus
