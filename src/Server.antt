-- ===== src/Server.antt =====
-- The server: command_parser/command_function_list.cpp, command_parser/command_parser.cpp and
-- Server/server.cpp, without the transfer loops, which stand in Wire.
pub mod State
pub mod Shares
pub mod Handlers
pub mod Video
pub mod Dispatch
pub mod Service
pub mod Connections
pub mod Startup
pub mod Acks
pub mod Arrivals
pub mod Stored
pub mod Broken
pub mod Sample
mod Tests
