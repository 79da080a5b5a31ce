-- ===== src/Py/Json.antt =====
-- `json.dumps` and `json.loads` on texts. The limit of 4300 digits of an int is left out, and so are
-- the texts that `loads` finds in encodings other than UTF-8. How a finite float is printed and read
-- is a parameter.
pub mod Dump
pub mod Scan
pub mod Load
pub mod Strings
pub mod Numbers
pub mod Heads
pub mod Steps
pub mod RoundTrip
pub mod Consumed
pub mod Total
