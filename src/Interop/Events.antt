-- ===== src/Interop/Events.antt =====
-- Runtime/Bindings/FFI/interop/interop_exports.h: the payload structures and their union. The code
-- only moves `int`, `float`, `double` and pointer fields about, so each is the number that its bits
-- stand for.
use evo_runtime.Common.{ℕ, Bool}

pub data EventType : Type 0 where
  error_event window_move_event window_resize_event : EventType
  window_close_event framebuffer_resize_event content_scale_event : EventType
  window_refresh_event window_focus_event window_iconify_event : EventType
  window_maximize_event mouse_button_event cursor_move_event : EventType
  cursor_enter_event scroll_event keyboard_event : EventType
  character_input_event geometry_compilation_event geometry_render_event : EventType
  geometry_release_event scissortest_status_event scissortest_region_event : EventType
  texture_load_event texture_generation_event texture_release_event : EventType
  transformation_update_event : EventType

-- The codes of `error_event_t`.
abbrev pub unknown_error : ℕ
unknown_error = 0

abbrev pub error_popping_empty_queue : ℕ
error_popping_empty_queue = 1

pub record RmlGeometryInfo : Type 0 where
  pub vertex_buffer : ℕ
  pub num_vertices : ℕ
  pub index_buffer : ℕ
  pub num_indices : ℕ

pub record ErrorEvent : Type 0 where
  pub type : EventType
  pub code : ℕ

pub record WindowMoveEvent : Type 0 where
  pub type : EventType
  pub x : ℕ
  pub y : ℕ

pub record WindowResizeEvent : Type 0 where
  pub type : EventType
  pub width : ℕ
  pub height : ℕ

pub record WindowCloseEvent : Type 0 where
  pub type : EventType

pub record FramebufferResizeEvent : Type 0 where
  pub type : EventType
  pub width : ℕ
  pub height : ℕ

pub record ContentScaleEvent : Type 0 where
  pub type : EventType
  pub x : ℕ
  pub y : ℕ

pub record WindowRefreshEvent : Type 0 where
  pub type : EventType

pub record WindowFocusEvent : Type 0 where
  pub type : EventType
  pub focused : ℕ

pub record WindowIconifyEvent : Type 0 where
  pub type : EventType
  pub iconified : ℕ

pub record WindowMaximizeEvent : Type 0 where
  pub type : EventType
  pub maximized : ℕ

pub record MouseButtonEvent : Type 0 where
  pub type : EventType
  pub button : ℕ
  pub action : ℕ
  pub mods : ℕ

pub record CursorMoveEvent : Type 0 where
  pub type : EventType
  pub x : ℕ
  pub y : ℕ

pub record CursorEnterEvent : Type 0 where
  pub type : EventType
  pub entered : ℕ

pub record ScrollEvent : Type 0 where
  pub type : EventType
  pub x : ℕ
  pub y : ℕ

pub record KeyEvent : Type 0 where
  pub type : EventType
  pub key : ℕ
  pub scancode : ℕ
  pub action : ℕ
  pub mods : ℕ

pub record CharacterInputEvent : Type 0 where
  pub type : EventType
  pub codepoint : ℕ

pub record GeometryCompilationEvent : Type 0 where
  pub type : EventType
  pub compiled_geometry : RmlGeometryInfo

pub record GeometryRenderEvent : Type 0 where
  pub type : EventType
  pub compiled_geometry : RmlGeometryInfo
  pub translate_u : ℕ
  pub translate_v : ℕ
  pub texture : ℕ

pub record GeometryReleaseEvent : Type 0 where
  pub type : EventType
  pub compiled_geometry : RmlGeometryInfo

pub record ScissortestStatusEvent : Type 0 where
  pub type : EventType
  pub enabled_flag : Bool

pub record ScissortestRegionEvent : Type 0 where
  pub type : EventType
  pub u : ℕ
  pub v : ℕ
  pub width : ℕ
  pub height : ℕ

pub record TextureLoadEvent : Type 0 where
  pub type : EventType
  pub texture : ℕ

pub record TextureGenerationEvent : Type 0 where
  pub type : EventType
  pub texture : ℕ

pub record TextureReleaseEvent : Type 0 where
  pub type : EventType
  pub texture : ℕ

pub record TransformationUpdateEvent : Type 0 where
  pub type : EventType
  pub x1 : ℕ
  pub x2 : ℕ
  pub x3 : ℕ
  pub x4 : ℕ
  pub y1 : ℕ
  pub y2 : ℕ
  pub y3 : ℕ
  pub y4 : ℕ
  pub z1 : ℕ
  pub z2 : ℕ
  pub z3 : ℕ
  pub z4 : ℕ
  pub w1 : ℕ
  pub w2 : ℕ
  pub w3 : ℕ
  pub w4 : ℕ

-- The union: one constructor for each member.
pub data DeferredEvent : Type 0 where
  error_details : ErrorEvent → DeferredEvent
  window_move_details : WindowMoveEvent → DeferredEvent
  window_resize_details : WindowResizeEvent → DeferredEvent
  window_close_details : WindowCloseEvent → DeferredEvent
  framebuffer_resize_details : FramebufferResizeEvent → DeferredEvent
  content_scale_details : ContentScaleEvent → DeferredEvent
  window_refresh_details : WindowRefreshEvent → DeferredEvent
  window_focus_details : WindowFocusEvent → DeferredEvent
  window_iconify_details : WindowIconifyEvent → DeferredEvent
  window_maximize_details : WindowMaximizeEvent → DeferredEvent
  mouse_button_details : MouseButtonEvent → DeferredEvent
  cursor_move_details : CursorMoveEvent → DeferredEvent
  cursor_enter_details : CursorEnterEvent → DeferredEvent
  scroll_details : ScrollEvent → DeferredEvent
  key_details : KeyEvent → DeferredEvent
  character_input_details : CharacterInputEvent → DeferredEvent
  geometry_compilation_details : GeometryCompilationEvent → DeferredEvent
  geometry_render_details : GeometryRenderEvent → DeferredEvent
  geometry_release_details : GeometryReleaseEvent → DeferredEvent
  scissortest_status_details : ScissortestStatusEvent → DeferredEvent
  scissortest_region_details : ScissortestRegionEvent → DeferredEvent
  texture_load_details : TextureLoadEvent → DeferredEvent
  texture_generation_details : TextureGenerationEvent → DeferredEvent
  texture_release_details : TextureReleaseEvent → DeferredEvent
  transformation_update_details : TransformationUpdateEvent → DeferredEvent

-- Every member begins with its `type`, so Lua reads it through any of them.
unfoldable pub event_type : DeferredEvent → EventType
event_type (error_details e) = e.type
event_type (window_move_details e) = e.type
event_type (window_resize_details e) = e.type
event_type (window_close_details e) = e.type
event_type (framebuffer_resize_details e) = e.type
event_type (content_scale_details e) = e.type
event_type (window_refresh_details e) = e.type
event_type (window_focus_details e) = e.type
event_type (window_iconify_details e) = e.type
event_type (window_maximize_details e) = e.type
event_type (mouse_button_details e) = e.type
event_type (cursor_move_details e) = e.type
event_type (cursor_enter_details e) = e.type
event_type (scroll_details e) = e.type
event_type (key_details e) = e.type
event_type (character_input_details e) = e.type
event_type (geometry_compilation_details e) = e.type
event_type (geometry_render_details e) = e.type
event_type (geometry_release_details e) = e.type
event_type (scissortest_status_details e) = e.type
event_type (scissortest_region_details e) = e.type
event_type (texture_load_details e) = e.type
event_type (texture_generation_details e) = e.type
event_type (texture_release_details e) = e.type
event_type (transformation_update_details e) = e.type

-- The type that announces a member: Lua chooses by `type` which member it reads.
unfoldable pub member_type : DeferredEvent → EventType
member_type (error_details e) = error_event
member_type (window_move_details e) = window_move_event
member_type (window_resize_details e) = window_resize_event
member_type (window_close_details e) = window_close_event
member_type (framebuffer_resize_details e) = framebuffer_resize_event
member_type (content_scale_details e) = content_scale_event
member_type (window_refresh_details e) = window_refresh_event
member_type (window_focus_details e) = window_focus_event
member_type (window_iconify_details e) = window_iconify_event
member_type (window_maximize_details e) = window_maximize_event
member_type (mouse_button_details e) = mouse_button_event
member_type (cursor_move_details e) = cursor_move_event
member_type (cursor_enter_details e) = cursor_enter_event
member_type (scroll_details e) = scroll_event
member_type (key_details e) = keyboard_event
member_type (character_input_details e) = character_input_event
member_type (geometry_compilation_details e) = geometry_compilation_event
member_type (geometry_render_details e) = geometry_render_event
member_type (geometry_release_details e) = geometry_release_event
member_type (scissortest_status_details e) = scissortest_status_event
member_type (scissortest_region_details e) = scissortest_region_event
member_type (texture_load_details e) = texture_load_event
member_type (texture_generation_details e) = texture_generation_event
member_type (texture_release_details e) = texture_release_event
member_type (transformation_update_details e) = transformation_update_event
