-- ===== src/ShallowModules.antt =====
-- lanorme/checks/shallow_modules.py: packages split into many shallow modules, and where to merge
-- them.
pub mod Members
pub mod Settings
pub mod Structure
pub mod Candidates
