-- ===== src/Exports/Audio.antt =====
-- The tables of functions of Runtime/Bindings/FFI/labsound:
-- the struct of the header, what getExportsTable assigns, and the declaration for Lua.
use evo_runtime.Common.{[], ◌∷◌}
use evo_runtime.Exports.Tables.{StructMembers, Assignments, own}

abbrev pub labsound_exports_table : StructMembers
labsound_exports_table =
    "labsound_version" ∷ "labsound_get_device_count" ∷ "labsound_get_device_info"
    ∷ "labsound_get_default_device_config" ∷ "labsound_device_create" ∷ "labsound_device_destroy"
    ∷ "labsound_context_create" ∷ "labsound_context_destroy" ∷ "labsound_context_connect"
    ∷ "labsound_context_disconnect" ∷ "labsound_context_load_hrtf_database"
    ∷ "labsound_context_listener_set_forward" ∷ "labsound_context_listener_set_up_vector"
    ∷ "labsound_context_listener_set_position" ∷ "labsound_context_listener_set_velocity"
    ∷ "labsound_context_synchronize_connections" ∷ "labsound_destination_node_create"
    ∷ "labsound_destination_node_destroy" ∷ "labsound_gain_node_create"
    ∷ "labsound_gain_node_destroy" ∷ "labsound_gain_node_set_value" ∷ "labsound_panner_node_create"
    ∷ "labsound_panner_node_destroy" ∷ "labsound_panner_node_set_velocity"
    ∷ "labsound_panner_node_set_position" ∷ "labsound_panner_node_set_orientation"
    ∷ "labsound_panner_node_set_panning_model" ∷ "labsound_panner_node_set_distance_model"
    ∷ "labsound_panner_node_set_ref_distance" ∷ "labsound_panner_node_set_max_distance"
    ∷ "labsound_panner_node_set_rolloff_factor" ∷ "labsound_panner_node_set_cone_inner_angle"
    ∷ "labsound_panner_node_set_cone_outer_angle" ∷ "labsound_panner_node_set_cone_outer_gain"
    ∷ "labsound_sampled_audio_node_from_file" ∷ "labsound_sampled_audio_node_from_memory"
    ∷ "labsound_sampled_audio_node_destroy" ∷ "labsound_sampled_audio_node_start"
    ∷ "labsound_sampled_audio_node_stop" ∷ "labsound_log_set_quiet" ∷ "labsound_print_graph" ∷ []

abbrev pub labsound_exports : Assignments
labsound_exports =
    own "labsound_version"
    ∷ own "labsound_get_device_count"
    ∷ own "labsound_get_device_info"
    ∷ own "labsound_get_default_device_config"
    ∷ own "labsound_device_create"
    ∷ own "labsound_device_destroy"
    ∷ own "labsound_context_create"
    ∷ own "labsound_context_destroy"
    ∷ own "labsound_context_connect"
    ∷ own "labsound_context_disconnect"
    ∷ own "labsound_context_load_hrtf_database"
    ∷ own "labsound_context_listener_set_forward"
    ∷ own "labsound_context_listener_set_up_vector"
    ∷ own "labsound_context_listener_set_position"
    ∷ own "labsound_context_listener_set_velocity"
    ∷ own "labsound_context_synchronize_connections"
    ∷ own "labsound_destination_node_create"
    ∷ own "labsound_destination_node_destroy"
    ∷ own "labsound_gain_node_create"
    ∷ own "labsound_gain_node_destroy"
    ∷ own "labsound_gain_node_set_value"
    ∷ own "labsound_panner_node_create"
    ∷ own "labsound_panner_node_destroy"
    ∷ own "labsound_panner_node_set_velocity"
    ∷ own "labsound_panner_node_set_position"
    ∷ own "labsound_panner_node_set_orientation"
    ∷ own "labsound_panner_node_set_panning_model"
    ∷ own "labsound_panner_node_set_distance_model"
    ∷ own "labsound_panner_node_set_ref_distance"
    ∷ own "labsound_panner_node_set_max_distance"
    ∷ own "labsound_panner_node_set_rolloff_factor"
    ∷ own "labsound_panner_node_set_cone_inner_angle"
    ∷ own "labsound_panner_node_set_cone_outer_angle"
    ∷ own "labsound_panner_node_set_cone_outer_gain"
    ∷ own "labsound_sampled_audio_node_from_file"
    ∷ own "labsound_sampled_audio_node_from_memory"
    ∷ own "labsound_sampled_audio_node_destroy"
    ∷ own "labsound_sampled_audio_node_start"
    ∷ own "labsound_sampled_audio_node_stop"
    ∷ ("labsound_log_set_quiet", "log_set_quiet")
    ∷ own "labsound_print_graph"
    ∷ []

abbrev pub labsound_cdef : StructMembers
labsound_cdef =
    "labsound_version" ∷ "labsound_get_device_count" ∷ "labsound_get_device_info"
    ∷ "labsound_get_default_device_config" ∷ "labsound_device_create" ∷ "labsound_device_destroy"
    ∷ "labsound_context_create" ∷ "labsound_context_destroy" ∷ "labsound_context_connect"
    ∷ "labsound_context_disconnect" ∷ "labsound_context_load_hrtf_database"
    ∷ "labsound_context_listener_set_forward" ∷ "labsound_context_listener_set_up_vector"
    ∷ "labsound_context_listener_set_position" ∷ "labsound_context_listener_set_velocity"
    ∷ "labsound_context_synchronize_connections" ∷ "labsound_destination_node_create"
    ∷ "labsound_destination_node_destroy" ∷ "labsound_gain_node_create"
    ∷ "labsound_gain_node_destroy" ∷ "labsound_gain_node_set_value" ∷ "labsound_panner_node_create"
    ∷ "labsound_panner_node_destroy" ∷ "labsound_panner_node_set_velocity"
    ∷ "labsound_panner_node_set_position" ∷ "labsound_panner_node_set_orientation"
    ∷ "labsound_panner_node_set_panning_model" ∷ "labsound_panner_node_set_distance_model"
    ∷ "labsound_panner_node_set_ref_distance" ∷ "labsound_panner_node_set_max_distance"
    ∷ "labsound_panner_node_set_rolloff_factor" ∷ "labsound_panner_node_set_cone_inner_angle"
    ∷ "labsound_panner_node_set_cone_outer_angle" ∷ "labsound_panner_node_set_cone_outer_gain"
    ∷ "labsound_sampled_audio_node_from_file" ∷ "labsound_sampled_audio_node_from_memory"
    ∷ "labsound_sampled_audio_node_destroy" ∷ "labsound_sampled_audio_node_start"
    ∷ "labsound_sampled_audio_node_stop" ∷ "labsound_log_set_quiet" ∷ "labsound_print_graph" ∷ []
