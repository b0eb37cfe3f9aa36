-- ===== src/WebServer.antt =====
-- Runtime/Bindings/FFI/WebServer.hpp and WebServer.cpp: the HTTP and WebSocket server behind the
-- runtime's Lua networking API. One child for each group of member functions, and one for each
-- group of theorems.
pub mod Status
pub mod State
pub mod Callbacks
pub mod Connections
pub mod Messaging
pub mod Requests
pub mod Events
pub mod Lifecycle
pub mod Steps
pub mod Clients
pub mod Broadcast
pub mod Invariant
pub mod Shutdown
pub mod Delivery
pub mod Histories
pub mod Queue
pub mod Responses
pub mod Details
pub mod Exports
pub mod Compression
pub mod Replies
pub mod Draining
pub mod View
pub mod Refinement
