-- ===== src/LuaVirtualMachine.antt =====
-- Runtime/LuaVirtualMachine.cpp: the Lua state that the runtime owns, and its stack; and
-- Runtime/main.cpp, which sets it up.
pub mod Interface
pub mod Machine
pub mod Stack
pub mod Startup
