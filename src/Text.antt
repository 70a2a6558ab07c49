-- ===== src/Text.antt =====
-- Python's text: the code points of a `str`, and the methods of `str` and of text files that the
-- program calls (`split`, `strip`, `==`, iteration over the lines of a file opened for reading).
mod Split
mod Strip
unfoldable pub use Split.*
unfoldable pub use Strip.*
