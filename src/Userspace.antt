-- ===== src/Userspace.antt =====
-- The programs in user space: the library, its health check, and the command line.
pub mod Floats
pub mod Fractions
pub mod Steps
pub mod Health
pub mod Context
pub mod Library
pub mod Options
pub mod Pool
pub mod Program
pub mod Tests
