-- ===== src/Go.antt =====
-- The parts of Go's standard library that the program calls: `strings`, `strconv`, `net.ParseIP`,
-- `net.IP.String` and `net.ParseMAC`, over texts as lists of code points.
pub mod Strings
pub mod Strconv
pub mod Ip
pub mod Mac
