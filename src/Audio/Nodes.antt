-- ===== src/Audio/Nodes.antt =====
-- labsound_ffi.cpp, contexts and nodes: the guards of each function, and the calls of LabSound
-- behind them, oldest first. A pointer is a number, and `none` where it is null; coordinates and
-- other floats are values of `F`. The assertions on indices are compiled out.
use evo_runtime.Common.{ℕ, Bool, true, false, Option, none, some, List, [], ◌∷◌}
use evo_runtime.Common.Bytes.{Bytes, c_string}
use evo_runtime.Common.Int.{ℤ}
use evo_runtime.Audio.Devices.{StreamConfig}

-- A method of the panner node that sets one float.
pub data PannerFloat : Type 0 where
  ref_distance max_distance rolloff_factor cone_inner_angle cone_outer_angle cone_outer_gain :
      PannerFloat

-- A method that sets a vector.
pub data VectorField : Type 0 where
  forward up_vector position velocity orientation : VectorField

pub data AudioCall (F : Type 0) : Type 0 where
  creates_device : StreamConfig F → StreamConfig F → AudioCall F
  creates_context : Bool → Bool → AudioCall F
  connects disconnects : ℕ → ℕ → ℕ → ℤ → ℤ → AudioCall F
  loads_hrtf_database : ℕ → Bytes → AudioCall F
  sets_listener sets_panner : ℕ → VectorField → F → F → F → AudioCall F
  synchronizes : ℕ → AudioCall F
  creates_destination : ℕ → ℕ → AudioCall F
  sets_device_destination sets_context_destination : ℕ → ℕ → AudioCall F
  creates_gain creates_panner creates_sampled : ℕ → AudioCall F
  sets_gain : ℕ → F → AudioCall F
  sets_panning_model sets_distance_model : ℕ → ℕ → AudioCall F
  sets_panner_float : ℕ → PannerFloat → F → AudioCall F
  makes_bus_from_file : Bytes → Bool → AudioCall F
  makes_bus_from_memory : Bytes → Bool → AudioCall F
  sets_bus : ℕ → ℕ → ℕ → AudioCall F
  starts : ℕ → F → ℤ → AudioCall F
  stops : ℕ → F → AudioCall F
  deletes : Option ℕ → AudioCall F

-- LabSound's answers: the pointers that it returns, and whether a database was loaded. `listener`
-- is that of a context, and `gain` the parameter of a gain node.
pub record LabSound : Type 0 where
  pub created : ℕ
  pub listener : ℕ → Option ℕ
  pub gain : ℕ → Option ℕ
  pub hrtf_loaded : ℕ → Bytes → Bool
  pub bus_from_file : Bytes → Bool → Option ℕ
  pub bus_from_memory : Bytes → Bool → Option ℕ

-- A returned pointer, or a flag, and the calls.
abbrev pub Created : Type 0 → Type 0
Created F = Option ℕ × List (AudioCall F)

abbrev pub Accepted : Type 0 → Type 0
Accepted F = Bool × List (AudioCall F)

module _ (F : Type 0) (lab : LabSound) where
  unfoldable pub labsound_device_create :
      Option (StreamConfig F) → Option (StreamConfig F) → Created F
  labsound_device_create none output = (none, [])
  labsound_device_create (some i) none = (none, [])
  labsound_device_create (some i) (some o) = (some lab.created, AudioCall.creates_device i o ∷ [])

  -- The functions that end in `_destroy`, whose `delete` a null pointer passes.
  unfoldable pub labsound_destroy : Option ℕ → List (AudioCall F)
  labsound_destroy pointer = AudioCall.deletes pointer ∷ []

  unfoldable pub labsound_context_create : Bool → Bool → Created F
  labsound_context_create is_offline auto_dispatch_events =
      (some lab.created, AudioCall.creates_context is_offline auto_dispatch_events ∷ [])

  unfoldable pub labsound_context_connect : Option ℕ → Option ℕ → Option ℕ → ℤ → ℤ → Accepted F
  labsound_context_connect (some c) (some d) (some s) destination_index source_index =
      (true, AudioCall.connects c d s destination_index source_index ∷ [])
  labsound_context_connect context destination source destination_index source_index = (false, [])

  unfoldable pub labsound_context_disconnect : Option ℕ → Option ℕ → Option ℕ → ℤ → ℤ → Accepted F
  labsound_context_disconnect (some c) (some d) (some s) destination_index source_index =
      (true, AudioCall.disconnects c d s destination_index source_index ∷ [])
  labsound_context_disconnect context destination source destination_index source_index =
      (false, [])

  unfoldable pub labsound_context_load_hrtf_database : Option ℕ → Option Bytes → Accepted F
  labsound_context_load_hrtf_database (some c) (some directory) = (
    lab.hrtf_loaded c (c_string directory),
    AudioCall.loads_hrtf_database c (c_string directory) ∷ [],
  )
  labsound_context_load_hrtf_database context directory = (false, [])

  -- The two guards of the functions on a listener.
  unfoldable pub with_listener : Option ℕ → VectorField → F → F → F → List (AudioCall F)
  with_listener none field x y z = []
  with_listener (some c) field x y z = elim (lab.listener c) [
    | none ↦ []
    | some listener ↦ AudioCall.sets_listener listener field x y z ∷ []
  ]

  unfoldable pub labsound_context_listener_set_forward : Option ℕ → F → F → F → List (AudioCall F)
  unfolding with_listener
  labsound_context_listener_set_forward context x y z =
      with_listener context VectorField.forward x y z

  unfoldable pub labsound_context_listener_set_up_vector : Option ℕ → F → F → F → List (AudioCall F)
  unfolding with_listener
  labsound_context_listener_set_up_vector context x y z =
      with_listener context VectorField.up_vector x y z

  unfoldable pub labsound_context_listener_set_position : Option ℕ → F → F → F → List (AudioCall F)
  unfolding with_listener
  labsound_context_listener_set_position context x y z =
      with_listener context VectorField.position x y z

  -- It calls `setPosition`, too.
  unfoldable pub labsound_context_listener_set_velocity : Option ℕ → F → F → F → List (AudioCall F)
  unfolding with_listener
  labsound_context_listener_set_velocity context x y z =
      with_listener context VectorField.position x y z

  unfoldable pub labsound_context_synchronize_connections : Option ℕ → List (AudioCall F)
  labsound_context_synchronize_connections none = []
  labsound_context_synchronize_connections (some c) = AudioCall.synchronizes c ∷ []

  unfoldable pub labsound_destination_node_create : Option ℕ → Option ℕ → Created F
  labsound_destination_node_create (some c) (some d) = (
    some lab.created,
    AudioCall.creates_destination c d
        ∷ AudioCall.sets_device_destination d lab.created
        ∷ AudioCall.sets_context_destination c lab.created
        ∷ [],
  )
  labsound_destination_node_create context device = (none, [])

  unfoldable pub labsound_gain_node_create : Option ℕ → Created F
  labsound_gain_node_create none = (none, [])
  labsound_gain_node_create (some c) = (some lab.created, AudioCall.creates_gain c ∷ [])

  unfoldable pub labsound_gain_node_set_value : Option ℕ → F → Accepted F
  labsound_gain_node_set_value none gain_value = (false, [])
  labsound_gain_node_set_value (some g) gain_value = elim (lab.gain g) [
    | none ↦ (false, [])
    | some gain ↦ (true, AudioCall.sets_gain gain gain_value ∷ [])
  ]

  unfoldable pub labsound_panner_node_create : Option ℕ → Created F
  labsound_panner_node_create none = (none, [])
  labsound_panner_node_create (some c) = (some lab.created, AudioCall.creates_panner c ∷ [])

  unfoldable pub labsound_panner_node_set_panning_model : Option ℕ → ℕ → List (AudioCall F)
  labsound_panner_node_set_panning_model none panning_model = []
  labsound_panner_node_set_panning_model (some p) panning_model =
      AudioCall.sets_panning_model p panning_model ∷ []

  unfoldable pub labsound_panner_node_set_distance_model : Option ℕ → ℕ → List (AudioCall F)
  labsound_panner_node_set_distance_model none distance_model = []
  labsound_panner_node_set_distance_model (some p) distance_model =
      AudioCall.sets_distance_model p distance_model ∷ []

  -- The guard of the functions that set a vector of a panner node.
  unfoldable pub with_panner : Option ℕ → VectorField → F → F → F → List (AudioCall F)
  with_panner none field x y z = []
  with_panner (some p) field x y z = AudioCall.sets_panner p field x y z ∷ []

  unfoldable pub labsound_panner_node_set_velocity : Option ℕ → F → F → F → List (AudioCall F)
  unfolding with_panner
  labsound_panner_node_set_velocity panner_node x y z =
      with_panner panner_node VectorField.velocity x y z

  unfoldable pub labsound_panner_node_set_position : Option ℕ → F → F → F → List (AudioCall F)
  unfolding with_panner
  labsound_panner_node_set_position panner_node x y z =
      with_panner panner_node VectorField.position x y z

  unfoldable pub labsound_panner_node_set_orientation : Option ℕ → F → F → F → List (AudioCall F)
  unfolding with_panner
  labsound_panner_node_set_orientation panner_node x y z =
      with_panner panner_node VectorField.orientation x y z

  -- `labsound_panner_node_set_ref_distance` to `labsound_panner_node_set_cone_outer_gain`.
  unfoldable pub labsound_panner_node_set : PannerFloat → Option ℕ → F → List (AudioCall F)
  labsound_panner_node_set field none value = []
  labsound_panner_node_set field (some p) value = AudioCall.sets_panner_float p field value ∷ []

  -- The part that the two functions share, behind their guards.
  unfoldable pub sampled_node : ℕ → Option ℕ → AudioCall F → Created F
  sampled_node c none made = (none, made ∷ [])
  sampled_node c (some bus) made = (
    some lab.created,
    made ∷ AudioCall.creates_sampled c ∷ AudioCall.sets_bus c lab.created bus ∷ [],
  )

  unfoldable pub labsound_sampled_audio_node_from_file : Option ℕ → Option Bytes → Bool → Created F
  unfolding sampled_node
  labsound_sampled_audio_node_from_file (some c) (some path) mix_to_mono =
      sampled_node c (lab.bus_from_file (c_string path) mix_to_mono)
        (AudioCall.makes_bus_from_file (c_string path) mix_to_mono)
  labsound_sampled_audio_node_from_file context path mix_to_mono = (none, [])

  unfoldable pub labsound_sampled_audio_node_from_memory :
      Option ℕ → Option Bytes → Bool → Created F
  unfolding sampled_node
  labsound_sampled_audio_node_from_memory (some c) (some contents) mix_to_mono =
      sampled_node c (lab.bus_from_memory contents mix_to_mono)
        (AudioCall.makes_bus_from_memory contents mix_to_mono)
  labsound_sampled_audio_node_from_memory context contents mix_to_mono = (none, [])

  unfoldable pub labsound_sampled_audio_node_start : Option ℕ → F → ℤ → Accepted F
  labsound_sampled_audio_node_start none when loop_count = (false, [])
  labsound_sampled_audio_node_start (some n) when loop_count =
      (true, AudioCall.starts n when loop_count ∷ [])

  unfoldable pub labsound_sampled_audio_node_stop : Option ℕ → F → Accepted F
  labsound_sampled_audio_node_stop none when = (false, [])
  labsound_sampled_audio_node_stop (some n) when = (true, AudioCall.stops n when ∷ [])
