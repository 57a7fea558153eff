-- ===== src/Drivers.antt =====
-- The test drivers of the repository: programs that print what calls return. What they print is what
-- the functions here return.
pub mod ParsingTest
pub mod TableTests
pub mod HostTests
pub mod StackTest
