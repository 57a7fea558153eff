-- ===== src/Constants.antt =====
-- constants.h: the status codes, kept apart by their constructors, and the sizes.
use http_exercise.Base.{ℕ}

pub data Status : Type 0 where
  finished success fail terminate enqueue : Status

abbrev pub prefetch_worker_threads : ℕ
prefetch_worker_threads = 4

abbrev pub client_worker_threads : ℕ
client_worker_threads = 4

abbrev pub client_job_stack_size : ℕ
client_job_stack_size = 32

abbrev pub cache_hash_length : ℕ
cache_hash_length = 33

abbrev pub keep_alive_timeout : ℕ
keep_alive_timeout = 10

abbrev pub printout_buffer_size : ℕ
printout_buffer_size = 512

abbrev pub job_request_buffer_size : ℕ
job_request_buffer_size = 4096

abbrev pub max_url_size : ℕ
max_url_size = 2048

-- block-table.h
abbrev pub max_name_length : ℕ
max_name_length = 256
