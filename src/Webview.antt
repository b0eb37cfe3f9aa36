-- ===== src/Webview.antt =====
-- Native web views, Runtime/Bindings/FFI/webview: the class WebviewBrowserEngine of each platform,
-- behind webview_ffi.cpp.
pub mod Calls
pub mod Unix
pub mod Windows
pub mod Mac
pub mod Icons
pub mod Fullscreen
