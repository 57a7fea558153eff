-- ===== src/Job.antt =====
-- job.c and job.h: one client connection, or one prefetch, with the request bytes read so far.
use http_exercise.Base.{◌≡◌, ℕ, ◌+◌, replicate}
use http_exercise.Base.Int.{ℤ, negsuc}
use http_exercise.Constants.{job_request_buffer_size}
use http_exercise.CStr.{Bytes}

-- `job_t`. A prefetch job has the descriptor -1.
pub record Job : Type 0 where
  pub client_socket_fd : ℤ
  pub request : Bytes
  pub request_tail : ℕ
  pub expiration_time : ℕ

-- `memset` of the whole buffer
unfoldable pub job_clear_buffer : Job → Job
job_clear_buffer j = record j {
  request = replicate (job_request_buffer_size + 1) 0;
  request_tail = 0;
}

-- `malloc` leaves the buffer and the tail undefined; `job_clear_buffer` sets both.
unfoldable pub job_construct : ℤ → Job
unfolding job_clear_buffer
job_construct fd = job_clear_buffer (record {
  client_socket_fd = fd;
  request = replicate 0 0;
  request_tail = 0;
  expiration_time = 0;
})

-- `job_destruct` closes the descriptor that it returns here, and frees the job: a job that has
-- been destructed is not used again.
unfoldable pub job_destruct : Job → ℤ
job_destruct j = j.client_socket_fd

-- a job of no connection
abbrev pub IsUnconnected : Job → Type 0
IsUnconnected job = job.client_socket_fd ≡ negsuc 0
