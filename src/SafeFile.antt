-- ===== src/SafeFile.antt =====
-- thread-safe-file.c and thread-safe-file.h: a stream that threads write to, one message at a time.
-- The mutex is released on every path of `safe_write`, so a call is one step.
use http_exercise.Base.{Bool, true, false, ◌++◌, if◌then◌else◌}
use http_exercise.Exec.{Exec, ok, fault, ◌>>=◌}
use http_exercise.CStr.{Bytes, cstr}

-- `safe_file_t`: the bytes that have gone into the stream. Behind `safe_close` the struct is freed.
pub record SafeFile : Type 0 where
  pub file_o : Bytes
  pub is_freed : Bool

-- `stream` is what has gone into the stream before.
unfoldable pub safe_init : Bytes → SafeFile
safe_init stream = record { file_o = stream; is_freed = false }

unfoldable pub safe_close : SafeFile → Exec SafeFile
safe_close file_handle =
    if file_handle.is_freed then fault else ok (record file_handle { is_freed = true })

-- fprintf(file_handle->file_o, "%s", to_write);
unfoldable pub safe_write : SafeFile → Bytes → Exec SafeFile
safe_write file_handle to_write =
    if file_handle.is_freed
    then fault
    else (do text ← cstr to_write; ok (record file_handle { file_o = file_handle.file_o ++ text }))
