-- ===== src/ClaudeSend/Cleanup.antt =====
-- What a run leaves behind.
use harness_transport.Disk.{Disk}
