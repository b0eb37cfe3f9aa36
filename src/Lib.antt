-- ===== src/Lib.antt =====
-- The native core of the Evo runtime. Lua programs reach the modelled parts through tables of exported
-- functions; what the parts have to tell Lua they put into queues that Lua polls.
--
-- The parts, and the modules that model them:
--   WebServer   Runtime/Bindings/FFI/WebServer.cpp, WebServer.hpp and uws/uws_ffi.cpp. The record
--               `WebServer` has the class's fields; the functions keep the methods' names. Callbacks
--               has the handlers that uws calls, Connections, Messaging, Requests, Events and
--               Lifecycle the methods that Lua calls, Exports the functions of uws_ffi.cpp, and Steps
--               all of them as one step function, whose histories the theorems are about. View is
--               what users of a server see of it, with a specification of its steps. uws itself is
--               the record `Uws` of its answers, each a function of all calls so far; the calls are
--               recorded in the field `calls`.
--   Interop     interop/interop_exports.h and interop_ffi.cpp: the tagged union of the events of windows
--               and of the user interface, and their queue.
--   Glfw        glfw/glfw_ffi.cpp and glfw_constants.hpp: the callbacks that put a window's input into such
--               a queue, sessions in which Lua creates, uses and destroys queues, and the constants.
--   Rml         RmlUi_Renderer_WebGPU.cpp: RmlUi's render interface, which creates GPU resources and
--               pushes an event for each command. WebGPU, the allocator, stb_image's file loader and
--               RmlUi's constants are the record `Device`. Exports has rml/rml_ffi.cpp, over the
--               record `Rml` of RmlUi's answers.
--   Stbi        stbi/stbi_ffi.cpp: images. The decoder and the writers of stb are the records `Decoder`
--               and `Writers`; a writer is the list of chunks that it hands to its callback.
--   Iconv       iconv/iconv_ffi.cpp: conversions between character sets. libiconv is the record `Library`
--               of its answers.
--   LuaVirtualMachine
--               Runtime/LuaVirtualMachine.cpp: the Lua state that the runtime owns. `Interface` has the
--               part of Lua's C API that it calls, as an interface with the manual's laws on the height
--               of the stack, which `Stack` takes as parameters. Startup has Runtime/main.cpp and
--               Runtime/SharedEventLoop.hpp.
--   Crypto      crypto/crypto_argon2.cpp and crypto_ffi.cpp: Base64, also by OpenSSL, and the derivation
--               of a key. OpenSSL is the record `Openssl` of its answers.
--   Miniz       Runtime/Bindings/lminiz.cpp: archives and compression. miniz is the records `Miniz`,
--               `Archive`, `Writer` and `Engine`, libuv a part of `Opening`; the values that Lua gets are
--               `Returned`.
--   Audio       labsound/labsound_ffi.cpp: audio devices, contexts and nodes. LabSound is the records
--               `Backend` and `LabSound`; sample rates are values of any type with its two operations.
--   Uuid        stduuid/stduuid_ffi.cpp: the ids of clients and requests. The text that a generator makes is
--               given.
--   Json        Runtime/Bindings/rapidjson.hpp: the encoder of JSON. `Encoder` and `Custom` keep its functions,
--               `Meaning` is the specification. Lua and the helpers of lua-rapidjson are the record `Lua`,
--               std::sort, the writers and their test of numbers are functions.
--   Webview     webview/webview_unix.hpp, webview_mac.hpp and webview_windows.hpp: the web view of each
--               platform. Windows is the record `Win32` for fullscreen mode; else calls are listed.
--   Exports     */*_exports.h, getExportsTable of */*_ffi.cpp and the declarations in */*.lua: the tables
--               through which Lua calls all of these parts.
--   Common      byte strings with the routines of <cstring>, hash maps as association lists, signed
--               numbers and the list lemmas that the parts share.
--   Examples    concrete data at which the theorems are applied.
-- (The paths without a directory stand in Runtime/Bindings/FFI, too.)
--
-- Numbers are natural numbers, with the wrap-around of size_t and uint32_t written out where the
-- source computes with them; event members, floats, handles and addresses are only passed on. A write
-- or a read outside the memory at hand is a fault, `none`. Most loops run over a list or a count.
-- Four have fuel: the loop of lmz_uncompress 31 rounds, which suffice because it goes on only while
-- the doubled size is below INT_MAX; that of a stream as many as its rounds, whose end depends on
-- miniz alone; the loop in which Lua polls a server one more than there are events; and the
-- recursion of the JSON encoder one more level than max_depth, which it compares its depth with. A
-- depth is a natural number, and the C++ stack is taken to be large enough for max_depth. The
-- order of an association list stands for the order in which a C++ hash map is iterated, which the
-- theorems about loops do not choose.
--
-- An image's width, height and channels are natural numbers, too: a negative `int` there is not
-- represented. `mz_ulong` has 64 bits (it has 32 on Windows).
--
-- Not modelled: text that is only printed for people, the functions that pass calls on to another
-- library, the table of WebGPU's functions, and the libraries written in Lua.
pub mod Common
pub mod WebServer
pub mod Interop
pub mod Glfw
pub mod Rml
pub mod Stbi
pub mod Iconv
pub mod LuaVirtualMachine
pub mod Crypto
pub mod Miniz
pub mod Audio
pub mod Json
pub mod Webview
pub mod Exports
pub mod Uuid
pub mod Examples
