-- ===== src/Resolve.antt =====
-- The resolve package: src/resolve/resolver.py and src/resolve/evaluator.py.
pub mod Resolver
pub mod Evaluator
mod Tests
