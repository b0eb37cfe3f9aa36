-- ===== src/Examples/Sound.antt =====
-- The theorems on audio devices, at two devices whose sample rates differ.
use evo_runtime.Common.{ℕ, ◌≡◌, refl, ◌⊎◌, true, false, some, [], ◌∷◌, arith, not, ◌==◌, take, min}
use evo_runtime.Common.Bytes.{codes, c_string}
use evo_runtime.Common.Int.{pos, negsuc}
use evo_runtime.Audio.Devices.{
  AudioDeviceInfo, StreamConfig, DeviceInfo, Backend, labsound_get_default_device_config,
  labsound_get_device_info,
}
use evo_runtime.Audio.Rates.{IsLast, IsCommonRate, labsound_get_default_device_config_matching}
use evo_runtime.Audio.Identifiers.{labsound_get_device_info_lem}

abbrev speaker : AudioDeviceInfo ℕ
speaker = record {
  index = pos 0;
  identifier = codes "hw";
  num_output_channels = 6;
  num_input_channels = 0;
  supported_samplerates = 44100 ∷ 48000 ∷ [];
  nominal_samplerate = 48000;
  is_default_output = true;
  is_default_input = false;
}

abbrev microphone : AudioDeviceInfo ℕ
microphone = record {
  index = pos 1;
  identifier = codes "mic";
  num_output_channels = 0;
  num_input_channels = 1;
  supported_samplerates = 16000 ∷ [];
  nominal_samplerate = 16000;
  is_default_output = false;
  is_default_input = true;
}

abbrev no_device : AudioDeviceInfo ℕ
no_device = record {
  index = negsuc 0;
  identifier = [];
  num_output_channels = 0;
  num_input_channels = 0;
  supported_samplerates = [];
  nominal_samplerate = 0;
  is_default_output = false;
  is_default_input = false;
}

abbrev blank : StreamConfig ℕ
blank = record { device_index = negsuc 0; desired_channels = 0; desired_samplerate = 0 }

abbrev backend : Backend ℕ
backend = record {
  devices = speaker ∷ microphone ∷ [];
  default_info = no_device;
  default_config = blank;
  differ = λ a b. not (a == b);
  smaller = min;
}

labsound_get_default_device_config_matching_example :
    (rate : ℕ) × (config : StreamConfig ℕ) × IsCommonRate backend speaker microphone rate
    × (labsound_get_default_device_config backend (some blank) (some blank) true ≡ (
      true,
      some (record { device_index = pos 1; desired_channels = 1; desired_samplerate = rate }),
      some (record { device_index = pos 0; desired_channels = 2; desired_samplerate = rate }),
    ))
    × (labsound_get_default_device_config backend (some blank) (some blank) false ≡ (
      true,
      some config,
      some (record { device_index = pos 0; desired_channels = 2; desired_samplerate = rate }),
    ))
    × (((not (48000 == 16000) ≡ false) × (config ≡ blank))
        ⊎ ((not (48000 == 16000) ≡ true) × (config ≡ record blank { desired_samplerate = rate })))
unfolding IsLast
labsound_get_default_device_config_matching_example =
    labsound_get_default_device_config_matching backend speaker microphone blank blank
      ([], microphone ∷ [], refl, refl, (refl, tt)) (speaker ∷ [], [], refl, refl, tt) refl refl
      same_rate
  where
    same_rate : (a b : ℕ) → not (a == b) ≡ false → a ≡ b
    same_rate a b h = ground (arith, h)

abbrev memory : DeviceInfo ℕ
memory = record {
  index = pos 0;
  identifier = 7 ∷ 7 ∷ 7 ∷ 7 ∷ [];
  num_output_channels = 0;
  num_input_channels = 0;
  supported_samplerates = 1 ∷ 1 ∷ 1 ∷ [];
  nominal_samplerate = 0;
  is_default_output = false;
  is_default_input = false;
}

labsound_get_device_info_lem_example :
    (copy : DeviceInfo ℕ) × (labsound_get_device_info backend 1 (some memory)
      ≡ some (true, some copy))
    × (c_string copy.identifier ≡ codes "mic")
    × (take 1 copy.supported_samplerates ≡ 16000 ∷ [])
    × (copy.nominal_samplerate ≡ 16000)
    × (copy.index ≡ pos 1)
    × (copy.num_output_channels ≡ 0)
    × (copy.num_input_channels ≡ 1)
    × (copy.is_default_output ≡ false)
    × (copy.is_default_input ≡ true)
labsound_get_device_info_lem_example =
    labsound_get_device_info_lem backend 1 memory microphone refl
      ((λ h. ground arith), ((λ h. ground arith), ((λ h. ground arith), tt))) (omega arith)
      (omega arith)
