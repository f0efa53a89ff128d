-- ===== src/Ipkg.antt =====
-- src/smart_build/domains/ipkg.py: the packages that an image is made of. A path in a package and the
-- text of its control file are lists of code points, an archive is a list of bytes.
pub mod Base
pub mod Ar
pub mod Paths
pub mod Control
pub mod Database
pub mod Package
pub mod Sources
pub mod Executor
pub mod Files
pub mod Install
pub mod Runtime
mod Toy
mod Samples
