-- ===== src/Permission.antt =====
-- core/permissions.py and discord/permissions.py: the predicates of permission fidelity.
pub mod Predicate
pub mod Cubes
pub mod Constant
pub mod Synthesis
pub mod Conjunction
pub mod Compile
pub mod Source
pub mod Translation
mod Tests
