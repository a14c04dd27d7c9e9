-- ===== src/Golang.antt =====
-- The parts of Go's standard library that the program calls: strings, strconv, path/filepath, time.
pub mod Strings
pub mod Strconv
pub mod FilePath
pub mod Time
