-- ===== src/Json/Ends.antt =====
-- `hd_json_parse`, src/io/hd_json.c: every loop ends, and no write is outside a buffer.
use sera_c.Json.Values.{Json}
