-- ===== src/Server.antt =====
-- server.c: the start of the program.
pub mod BlockList
pub mod Main
