-- ===== src/Tests/Disk.antt =====
-- The slow network with one file on its disk, whose bytes fread takes away, and no server.
use http_exercise.Base.{refl, false, some, take, drop}
use http_exercise.Base.Int.{pos}
use http_exercise.Outside.{Outside}
use http_exercise.Tests.Hosts.{two_addresses}
use http_exercise.Tests.SlowNet.{slow_net, send_two_kept}

abbrev pub slow_disk : Outside two_addresses slow_net
slow_disk = record {
  open_read = λ _ t. (some tt, t);
  open_write = λ _ t. (some tt, t);
  fread = λ _ n t. (take n t.1, (t.0, drop n t.1, t.2));
  fclose = λ _ t. t;
  text = λ _ t. t.1;
  socket = λ t. (pos 9, t);
  connect = λ _ _ t. (false, t);
  stored = λ _ t. t.1;
  unread = λ _ t. t.1;
  open_read-unread = λ _ _ _. refl;
  open_read-sent = λ _ _ _. refl;
  fread-bytes = λ _ _ _. refl;
  fread-unread = λ _ _ _. refl;
  fread-sent = λ _ _ _ _. refl;
  fclose-sent = λ _ _ _. refl;
  peek-unread = λ _ _ _. refl;
  send-unread = λ _ bytes _ t. (send_two_kept bytes t).0;
}
