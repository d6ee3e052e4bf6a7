-- ===== src/Stream.antt =====
-- src/stream.c, src/input.h: the data streams of the run time: a queue of buffers over a source,
-- with the position in the text and the number of bytes that could be sent back.
--
-- A `long` or an `int` is a word, its bits read as a natural number, and wraps around. A byte is a
-- number. The length of a text is the length of its list.
pub mod Position
pub mod Restore
pub mod Buffers
pub mod Consume
pub mod Data
pub mod Undo
pub mod Append
pub mod Read
pub mod Walk
pub mod Peek
pub mod Roundtrip
