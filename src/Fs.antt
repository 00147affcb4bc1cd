-- ===== src/Fs.antt =====
-- fs/: pipes, descriptors and inodes, paths, and the tree of directory entries.
pub mod Pipe
pub mod Namei
pub mod Dcache
pub mod Files
