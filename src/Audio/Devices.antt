-- ===== src/Audio/Devices.antt =====
-- labsound_ffi.cpp, devices: their list, the copy of one into Lua's memory, and the configuration
-- of the default ones. A sample rate is a value of `F`, of which the code takes the smaller of two.
use evo_runtime.Common.{
  ℕ, zero, Bool, true, false, Option, none, some, List, [], ◌∷◌, if◌then◌else◌, length, min,
  get_elem?,
}
use evo_runtime.Common.Bytes.{Bytes, strncpy, store, ◌>>=◌}
use evo_runtime.Common.Int.{ℤ, negsuc}

-- lab::AudioDeviceInfo
pub record AudioDeviceInfo (F : Type 0) : Type 0 where
  pub index : ℤ
  pub identifier : Bytes
  pub num_output_channels : ℕ
  pub num_input_channels : ℕ
  pub supported_samplerates : List F
  pub nominal_samplerate : F
  pub is_default_output : Bool
  pub is_default_input : Bool

-- `labsound_audio_stream_config_t`, and lab::AudioStreamConfig
pub record StreamConfig (F : Type 0) : Type 0 where
  pub device_index : ℤ
  pub desired_channels : ℕ
  pub desired_samplerate : F

-- `labsound_audio_device_info_t`, in the caller's memory: `identifier` has 256 bytes, and
-- `supported_samplerates` has 32 elements.
pub record DeviceInfo (F : Type 0) : Type 0 where
  pub index : ℤ
  pub identifier : Bytes
  pub num_output_channels : ℕ
  pub num_input_channels : ℕ
  pub supported_samplerates : List F
  pub nominal_samplerate : F
  pub is_default_output : Bool
  pub is_default_input : Bool

-- The devices that LabSound lists, what its default constructors leave, and the two operations on
-- floats.
pub record Backend (F : Type 0) : Type 0 where
  pub devices : List (AudioDeviceInfo F)
  pub default_info : AudioDeviceInfo F
  pub default_config : StreamConfig F
  pub differ : F → F → Bool
  pub smaller : F → F → F

-- `info.index != -1`
abbrev pub exists : ℤ → Bool
exists (negsuc zero) = false
exists _ = true

module _ {F : Type 0} (backend : Backend F) where
  -- The loop over the devices: the last default output, and the last default input.
  unfoldable pub default_devices :
      List (AudioDeviceInfo F)
      → AudioDeviceInfo F
      → AudioDeviceInfo F
      → AudioDeviceInfo F × AudioDeviceInfo F
  default_devices [] output input = (output, input)
  default_devices (info ∷ rest) output input =
      default_devices rest (if info.is_default_output then info else output)
        (if info.is_default_input then info else input)

  abbrev pub output_config : AudioDeviceInfo F → StreamConfig F
  output_config info =
      if exists info.index
      then record {
        device_index = info.index;
        desired_channels = min 2 info.num_output_channels;
        desired_samplerate = info.nominal_samplerate;
      }
      else backend.default_config

  -- `none` where the function returns false.
  abbrev pub input_config : AudioDeviceInfo F → Bool → Option (StreamConfig F)
  input_config info false = some backend.default_config
  input_config info true =
      if exists info.index
      then some (record {
        device_index = info.index;
        desired_channels = min 1 info.num_input_channels;
        desired_samplerate = info.nominal_samplerate;
      })
      else none

  -- The fallback to the smaller rate.
  abbrev pub matched : F → F → StreamConfig F → StreamConfig F
  matched output input config =
      if backend.differ output input
      then record config { desired_samplerate = backend.smaller output input }
      else config

  -- What is returned, and the two configurations afterwards.
  unfoldable pub labsound_get_default_device_config :
      Option (StreamConfig F)
      → Option (StreamConfig F)
      → Bool
      → Bool × Option (StreamConfig F) × Option (StreamConfig F)
  unfolding default_devices
  labsound_get_default_device_config none output with_input = (false, none, output)
  labsound_get_default_device_config (some i) none with_input = (false, some i, none)
  labsound_get_default_device_config (some i) (some o) with_input =
      let (output, input) =
        default_devices backend.devices backend.default_info backend.default_info in
      elim (input_config input with_input) [
        | none ↦ (false, some i, some o)
        | some config ↦ (
          true,
          some (matched output.nominal_samplerate input.nominal_samplerate config),
          some (matched output.nominal_samplerate input.nominal_samplerate (output_config output)),
        )
      ]

  unfoldable pub labsound_get_device_count : ℕ
  labsound_get_device_count = length backend.devices

  -- The loop over the sample rates; a write past the end of the array is a fault.
  unfoldable pub copy_rates : List F → List F → Option (List F)
  copy_rates [] memory = some memory
  copy_rates (r ∷ rates) [] = none
  copy_rates (r ∷ rates) (m ∷ memory) = copy_rates rates memory >>= λ rest. some (r ∷ rest)

  -- `strncpy` of the identifier's length, and a NUL behind it.
  unfoldable pub copy_identifier : Bytes → Bytes → Option Bytes
  copy_identifier memory identifier =
      strncpy memory identifier (length identifier) >>= λ copied. store copied (length identifier) 0

  -- The assertions are compiled out. An index past the end of the list is a fault.
  unfoldable pub labsound_get_device_info :
      ℕ → Option (DeviceInfo F) → Option (Bool × Option (DeviceInfo F))
  unfolding copy_rates copy_identifier
  labsound_get_device_info device_index none = some (false, none)
  labsound_get_device_info device_index (some memory) = do
    info ← get_elem? backend.devices device_index
    identifier ← copy_identifier memory.identifier info.identifier
    rates ← copy_rates info.supported_samplerates memory.supported_samplerates
    some (
      true,
      some (record {
        index = info.index;
        identifier = identifier;
        num_output_channels = info.num_output_channels;
        num_input_channels = info.num_input_channels;
        supported_samplerates = rates;
        nominal_samplerate = info.nominal_samplerate;
        is_default_output = info.is_default_output;
        is_default_input = info.is_default_input;
      }),
    )
