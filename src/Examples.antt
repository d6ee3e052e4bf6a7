-- ===== src/Examples.antt =====
-- The models on concrete data: src/fsmgraph.h, src/fsmap.cc, src/fsmmin.cc, src/redfsm.cc,
-- src/stream.c, src/input.c, src/map.c, src/list.c, src/iter.c and src/tree.c.
mod Iterator
mod Machine
mod Minimize
mod Priorities
mod Rounds
mod Stream
mod Input
mod Maps
mod Lists
mod Pools
