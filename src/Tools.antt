-- ===== src/Tools.antt =====
-- The programs of tool/ that stand on the peers. The functions of the C library that they call are
-- arguments.
pub mod Values
pub mod Speed
pub mod Arguments
pub mod Programs
pub mod Cat
pub mod Lines
pub mod Call
