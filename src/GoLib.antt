-- ===== src/GoLib.antt =====
-- What the program uses of Go's standard library, over texts as bytes (Strings, Strconv, Net), of its
-- float64 (Float64), and
-- the interface of the LRU cache that it takes from github.com/hashicorp/golang-lru (Lru).
-- Case folding and white space are those of ASCII: bytes from 0x80 on are left alone.
pub mod Strings
pub mod Search
pub mod Net
pub mod Ip
pub mod Binary
pub mod Float64
pub mod Strconv
pub mod Lru
