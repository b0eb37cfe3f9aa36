-- ===== src/Exports/Server.antt =====
-- The tables of functions of Runtime/Bindings/FFI/uws:
-- the struct of the header, what getExportsTable assigns, and the declaration for Lua.
use evo_runtime.Common.{[], ◌∷◌}
use evo_runtime.Exports.Tables.{StructMembers, Assignments, own}

abbrev pub uws_exports_table : StructMembers
uws_exports_table =
    "uws_version" ∷ "uws_event_name" ∷ "uws_webserver_create" ∷ "uws_webserver_listen"
    ∷ "uws_webserver_has_event" ∷ "uws_webserver_get_next_event" ∷ "uws_webserver_stop"
    ∷ "uws_webserver_delete" ∷ "uws_webserver_set_echo_mode" ∷ "uws_webserver_dump_config"
    ∷ "uws_webserver_dump_events" ∷ "uws_webserver_get_client_count"
    ∷ "uws_webserver_get_event_count" ∷ "uws_webserver_payload_size"
    ∷ "uws_webserver_purge_connections" ∷ "uws_webserver_broadcast_text"
    ∷ "uws_webserver_broadcast_binary" ∷ "uws_webserver_broadcast_compressed"
    ∷ "uws_webserver_send_text" ∷ "uws_webserver_send_binary" ∷ "uws_webserver_send_compressed"
    ∷ "uws_webserver_response_write" ∷ "uws_webserver_response_end"
    ∷ "uws_webserver_response_try_end" ∷ "uws_webserver_response_status"
    ∷ "uws_webserver_response_header" ∷ "uws_webserver_has_request" ∷ "uws_webserver_request_method"
    ∷ "uws_webserver_request_url" ∷ "uws_webserver_request_query" ∷ "uws_webserver_request_endpoint"
    ∷ "uws_webserver_request_serialized_headers" ∷ "uws_webserver_request_header_value"
    ∷ "uws_webserver_add_websocket_route" ∷ "uws_webserver_add_get_route"
    ∷ "uws_webserver_add_post_route" ∷ "uws_webserver_add_options_route"
    ∷ "uws_webserver_add_delete_route" ∷ "uws_webserver_add_patch_route"
    ∷ "uws_webserver_add_put_route" ∷ "uws_webserver_add_head_route" ∷ "uws_webserver_add_any_route"
    ∷ []

abbrev pub uws_exports : Assignments
uws_exports =
    own "uws_version"
    ∷ own "uws_event_name"
    ∷ own "uws_webserver_create"
    ∷ own "uws_webserver_listen"
    ∷ own "uws_webserver_has_event"
    ∷ own "uws_webserver_get_next_event"
    ∷ own "uws_webserver_stop"
    ∷ own "uws_webserver_delete"
    ∷ own "uws_webserver_set_echo_mode"
    ∷ own "uws_webserver_dump_config"
    ∷ own "uws_webserver_dump_events"
    ∷ own "uws_webserver_get_client_count"
    ∷ own "uws_webserver_get_event_count"
    ∷ own "uws_webserver_payload_size"
    ∷ own "uws_webserver_purge_connections"
    ∷ own "uws_webserver_broadcast_text"
    ∷ own "uws_webserver_broadcast_binary"
    ∷ own "uws_webserver_broadcast_compressed"
    ∷ own "uws_webserver_send_text"
    ∷ own "uws_webserver_send_binary"
    ∷ own "uws_webserver_send_compressed"
    ∷ own "uws_webserver_response_write"
    ∷ own "uws_webserver_response_end"
    ∷ own "uws_webserver_response_try_end"
    ∷ own "uws_webserver_response_status"
    ∷ own "uws_webserver_response_header"
    ∷ own "uws_webserver_has_request"
    ∷ own "uws_webserver_request_method"
    ∷ own "uws_webserver_request_url"
    ∷ own "uws_webserver_request_query"
    ∷ own "uws_webserver_request_endpoint"
    ∷ own "uws_webserver_request_serialized_headers"
    ∷ own "uws_webserver_request_header_value"
    ∷ own "uws_webserver_add_websocket_route"
    ∷ own "uws_webserver_add_get_route"
    ∷ own "uws_webserver_add_post_route"
    ∷ own "uws_webserver_add_options_route"
    ∷ own "uws_webserver_add_delete_route"
    ∷ own "uws_webserver_add_patch_route"
    ∷ own "uws_webserver_add_put_route"
    ∷ own "uws_webserver_add_head_route"
    ∷ own "uws_webserver_add_any_route"
    ∷ []

abbrev pub uws_cdef : StructMembers
uws_cdef =
    "uws_version" ∷ "uws_event_name" ∷ "uws_webserver_create" ∷ "uws_webserver_listen"
    ∷ "uws_webserver_has_event" ∷ "uws_webserver_get_next_event" ∷ "uws_webserver_stop"
    ∷ "uws_webserver_delete" ∷ "uws_webserver_set_echo_mode" ∷ "uws_webserver_dump_config"
    ∷ "uws_webserver_dump_events" ∷ "uws_webserver_get_client_count"
    ∷ "uws_webserver_get_event_count" ∷ "uws_webserver_payload_size"
    ∷ "uws_webserver_purge_connections" ∷ "uws_webserver_broadcast_text"
    ∷ "uws_webserver_broadcast_binary" ∷ "uws_webserver_broadcast_compressed"
    ∷ "uws_webserver_send_text" ∷ "uws_webserver_send_binary" ∷ "uws_webserver_send_compressed"
    ∷ "uws_webserver_response_write" ∷ "uws_webserver_response_end"
    ∷ "uws_webserver_response_try_end" ∷ "uws_webserver_response_status"
    ∷ "uws_webserver_response_header" ∷ "uws_webserver_has_request" ∷ "uws_webserver_request_method"
    ∷ "uws_webserver_request_url" ∷ "uws_webserver_request_query" ∷ "uws_webserver_request_endpoint"
    ∷ "uws_webserver_request_serialized_headers" ∷ "uws_webserver_request_header_value"
    ∷ "uws_webserver_add_websocket_route" ∷ "uws_webserver_add_get_route"
    ∷ "uws_webserver_add_post_route" ∷ "uws_webserver_add_options_route"
    ∷ "uws_webserver_add_delete_route" ∷ "uws_webserver_add_patch_route"
    ∷ "uws_webserver_add_put_route" ∷ "uws_webserver_add_head_route" ∷ "uws_webserver_add_any_route"
    ∷ []
