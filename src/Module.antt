-- ===== src/Module.antt =====
-- lib/snmpy/module/__init__.py: the plugin classes. `ValueModule` has a value for each item, and
-- `TableModule` has rows under columns.
pub mod Item
pub mod Values
pub mod Tables
mod Tests
