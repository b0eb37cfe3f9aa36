-- ===== src/Audio/Handles.antt =====
-- labsound_ffi.cpp: no call on a null handle, and what the listener's setters set.
use evo_runtime.Common.{ℕ, ◌≡◌, refl, Bool, false, Option, none, some, []}
use evo_runtime.Common.Bytes.{Bytes}
use evo_runtime.Common.Int.{ℤ}
use evo_runtime.Audio.Devices.{StreamConfig}
use evo_runtime.Audio.Nodes.{
  PannerFloat, LabSound, labsound_device_create, labsound_context_connect,
  labsound_context_disconnect, labsound_context_load_hrtf_database,
  labsound_context_listener_set_forward, labsound_context_listener_set_up_vector,
  labsound_context_listener_set_position, labsound_context_listener_set_velocity,
  labsound_context_synchronize_connections, labsound_destination_node_create,
  labsound_gain_node_create, labsound_gain_node_set_value, labsound_panner_node_create,
  labsound_panner_node_set_panning_model, labsound_panner_node_set_distance_model,
  labsound_panner_node_set_velocity, labsound_panner_node_set_position,
  labsound_panner_node_set_orientation, labsound_panner_node_set,
  labsound_sampled_audio_node_from_file, labsound_sampled_audio_node_from_memory,
  labsound_sampled_audio_node_start, labsound_sampled_audio_node_stop,
}

module _ (F : Type 0) (lab : LabSound) where
  -- An edge of the graph is made or removed only between two nodes of a context: with a null
  -- pointer for any of the three, the functions return false and call nothing.
  pub labsound_context_connect-null :
      (a b : Option ℕ) (i j : ℤ)
      → (labsound_context_connect F lab none a b i j ≡ (false, []))
        × (labsound_context_connect F lab a none b i j ≡ (false, []))
        × (labsound_context_connect F lab a b none i j ≡ (false, []))
        × (labsound_context_disconnect F lab none a b i j ≡ (false, []))
        × (labsound_context_disconnect F lab a none b i j ≡ (false, []))
        × (labsound_context_disconnect F lab a b none i j ≡ (false, []))
  unfolding labsound_context_connect labsound_context_disconnect
  labsound_context_connect-null none none i j = (refl, refl, refl, refl, refl, refl)
  labsound_context_connect-null none (some b) i j = (refl, refl, refl, refl, refl, refl)
  labsound_context_connect-null (some a) none i j = (refl, refl, refl, refl, refl, refl)
  labsound_context_connect-null (some a) (some b) i j = (refl, refl, refl, refl, refl, refl)

  -- Setting the listener's velocity does what setting its position does, on every context.
  pub labsound_context_listener_set_velocity_lem :
      (context : Option ℕ) (x y z : F)
      → labsound_context_listener_set_velocity F lab context x y z
        ≡ labsound_context_listener_set_position F lab context x y z
  unfolding labsound_context_listener_set_velocity labsound_context_listener_set_position
  labsound_context_listener_set_velocity_lem context x y z = refl

  -- With a null handle no function that creates a node, or that changes one, calls anything.
  pub labsound_null_handles :
      (x y z : F) (n : ℕ) (i : ℤ) (o : Option (StreamConfig F)) (p : Option ℕ) (b : Bool)
      (t : Option Bytes) (field : PannerFloat)
      → ((labsound_device_create F lab none o ≡ (none, []))
          × (labsound_destination_node_create F lab none p ≡ (none, []))
          × (labsound_gain_node_create F lab none ≡ (none, []))
          × (labsound_panner_node_create F lab none ≡ (none, []))
          × (labsound_sampled_audio_node_from_file F lab none t b ≡ (none, []))
          × (labsound_sampled_audio_node_from_memory F lab none t b ≡ (none, [])))
        × ((labsound_context_load_hrtf_database F lab none t ≡ (false, []))
            × (labsound_gain_node_set_value F lab none x ≡ (false, []))
            × (labsound_sampled_audio_node_start F lab none x i ≡ (false, []))
            × (labsound_sampled_audio_node_stop F lab none x ≡ (false, [])))
        × ((labsound_context_listener_set_forward F lab none x y z ≡ [])
            × (labsound_context_listener_set_up_vector F lab none x y z ≡ [])
            × (labsound_context_listener_set_position F lab none x y z ≡ [])
            × (labsound_context_synchronize_connections F lab none ≡ [])
            × (labsound_panner_node_set_panning_model F lab none n ≡ [])
            × (labsound_panner_node_set_distance_model F lab none n ≡ [])
            × (labsound_panner_node_set_velocity F lab none x y z ≡ [])
            × (labsound_panner_node_set_position F lab none x y z ≡ [])
            × (labsound_panner_node_set_orientation F lab none x y z ≡ [])
            × (labsound_panner_node_set F lab field none x ≡ []))
  unfolding labsound_device_create labsound_destination_node_create labsound_gain_node_create
      labsound_panner_node_create labsound_sampled_audio_node_from_file
      labsound_sampled_audio_node_from_memory labsound_context_load_hrtf_database
      labsound_gain_node_set_value labsound_sampled_audio_node_start
      labsound_sampled_audio_node_stop labsound_context_listener_set_forward
      labsound_context_listener_set_up_vector labsound_context_listener_set_position
      labsound_context_synchronize_connections labsound_panner_node_set_panning_model
      labsound_panner_node_set_distance_model labsound_panner_node_set_velocity
      labsound_panner_node_set_position labsound_panner_node_set_orientation
      labsound_panner_node_set
  labsound_null_handles x y z n i o p b t field = (
    (refl, refl, refl, refl, refl, refl),
    (refl, refl, refl, refl),
    (refl, refl, refl, refl, refl, refl, refl, refl, refl, refl),
  )
