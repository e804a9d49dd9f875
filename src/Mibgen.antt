-- ===== src/Mibgen.antt =====
-- lib/snmpy/mibgen.py: the names, the types and the text of the MIB.
pub mod Names
pub mod Syntax
mod Tests
