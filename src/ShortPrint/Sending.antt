-- ===== src/ShortPrint/Sending.antt =====
-- Writes to LinuxDeviceDrivers3Ed/shortprint/shortprint.c: what they add to the bytes on their way,
-- and what they return.
use leipocode.Base.{Bool}
use leipocode.ShortPrint.Added.{Added}
use leipocode.ShortPrint.{ShortPrint}
