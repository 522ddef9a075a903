-- ===== src/Encode.antt =====
-- The encodings of the standard library that the program writes and reads: `encoding/hex` and
-- `strconv` at base 10, and `encoding/base64` without padding for URLs.
pub mod Hex
pub mod Decimal
pub mod Base64
