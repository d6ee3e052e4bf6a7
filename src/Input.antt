-- ===== src/Input.antt =====
-- src/input.c, src/input.h: the input of a parser, a queue of streams and trees, and the stash of
-- what was consumed of it.
--
-- A stream is reached through its functions (`struct stream_funcs`), so the input is modelled over
-- any implementation of them. A stream stands in one place of one input, so its state stands in the
-- queue. A run that follows the null pointer or fails an assertion is `none`.
pub mod Seq
pub mod Data
pub mod Trees
pub mod TreeLaws
pub mod AppendLaws
pub mod ConsumeLaws
pub mod PutBack
pub mod Restore
pub mod Roundtrip
pub mod DataStream
