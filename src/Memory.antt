-- ===== src/Memory.antt =====
-- The objects that parser/source/spore_parser.cpp, spore_c/source/spore_c.cpp and `listen` of
-- spore_c/source/client.cpp allocate, use and free.
pub mod Heap
pub mod Handles
pub mod FromRaw
pub mod Pair
pub mod Lines
pub mod Destroy
