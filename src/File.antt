-- ===== src/File.antt =====
-- epoll_file.cpp.
pub mod Kmp
pub mod Calls
pub mod Transfer
pub mod Queue
pub mod Control
pub mod Line
