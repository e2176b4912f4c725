-- ===== src/Py.antt =====
-- What the program uses of the Python language and its standard library: exceptions as values, the
-- values that `json` reads and writes, and numbers read from and written as text.
pub mod Result
pub mod Value
pub mod Dict
pub mod Equality
pub mod Assoc
pub mod Text
pub mod Number
pub mod Hex
pub mod Decimals
pub mod Edit
pub mod Lines
pub mod Round
pub mod Regex
