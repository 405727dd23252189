-- ===== src/Reader/Serving.antt =====
-- Whatever is asked of an executor, its socket is open exactly while a session is active.
use rfid.Prelude.{nat_eq, string_eq}
