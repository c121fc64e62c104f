-- ===== src/Text.antt =====
-- What the program uses of the text functions of the C and C++ libraries: search, numbers and splitting.
pub mod Search
pub mod Numbers
