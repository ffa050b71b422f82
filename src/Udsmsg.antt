-- ===== src/Udsmsg.antt =====
-- udsmsg/: newline-delimited JSON frames over a Unix domain socket, one socket per session.
pub mod Frame
pub mod Addr
pub mod Attrib
pub mod Client
pub mod Server
pub mod Discover
pub mod Proc
pub mod KeyFile
pub mod Session
pub mod Listen
pub mod Delivered
pub mod Platform
mod Examples
