-- ===== src/Go.antt =====
-- Functions of Go's standard library that the program calls, on texts of code points.
pub mod Strings
pub mod Numbers
pub mod Durations
pub mod Base64
pub mod Net
pub mod Url
