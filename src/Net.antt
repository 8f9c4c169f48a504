-- ===== src/Net.antt =====
-- The directory net: connections, the server that keeps them and the socket that accepts them.
pub mod TcpConnection
pub mod TcpServer
pub mod Acceptor
pub mod EventLoop
