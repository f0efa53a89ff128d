-- ===== src/Packages.antt =====
-- src/smart_build/package_metadata.py and src/smart_build/package_resolver.py.
pub mod Symbols
pub mod Metadata
pub mod Resolver
pub mod Dependencies
mod Samples
