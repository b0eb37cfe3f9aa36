-- ===== src/Audio/Rates.antt =====
-- The default devices that `labsound_get_default_device_config` finds, and the sample rates that it
-- settles on.
use evo_runtime.Common.{
  ◌≡◌, refl, ap, sym, ◌∙◌, if◌then◌else◌, ◌⊎◌, Bool, true, false, some, List, [], ◌∷◌, ◌++◌,
  Bool-cases, inl, inr, min, All,
}
use evo_runtime.Audio.Devices.{
  AudioDeviceInfo, StreamConfig, Backend, exists, default_devices,
  labsound_get_default_device_config,
}

chosen {ℓ} : {A : Type ℓ} {test : Bool} (x y : A) → test ≡ true → (if test then x else y) ≡ x
chosen x y h = rw h refl

module _ {F : Type 0} (backend : Backend F) where
  -- The last device of a list that has a flag.
  unfoldable pub IsLast :
      (AudioDeviceInfo F → Bool) → List (AudioDeviceInfo F) → AudioDeviceInfo F → Type 0
  IsLast flag devices d =
      (before after : List (AudioDeviceInfo F)) × (devices ≡ before ++ d ∷ after)
      × (flag d ≡ true)
      × All (λ other. flag other ≡ false) after

  -- Without a flagged device the loop keeps what it has.
  default_devices-no_output :
      (devices : List (AudioDeviceInfo F)) (output input : AudioDeviceInfo F)
      → All (λ other. other.is_default_output ≡ false) devices
      → (default_devices backend devices output input).0 ≡ output
  unfolding default_devices
  default_devices-no_output [] output input h = refl
  default_devices-no_output (d ∷ rest) output input h =
      rw h.0 (default_devices-no_output rest output _ h.1)

  default_devices-no_input :
      (devices : List (AudioDeviceInfo F)) (output input : AudioDeviceInfo F)
      → All (λ other. other.is_default_input ≡ false) devices
      → (default_devices backend devices output input).1 ≡ input
  unfolding default_devices
  default_devices-no_input [] output input h = refl
  default_devices-no_input (d ∷ rest) output input h =
      rw h.0 (default_devices-no_input rest _ input h.1)

  default_devices-output :
      (before after : List (AudioDeviceInfo F)) (d output input : AudioDeviceInfo F)
      → d.is_default_output ≡ true
      → All (λ other. other.is_default_output ≡ false) after
      → (default_devices backend (before ++ d ∷ after) output input).0 ≡ d
  unfolding default_devices
  default_devices-output [] after d output input e h =
      default_devices-no_output after _ _ h ∙ chosen d output e
  default_devices-output (x ∷ before) after d output input e h =
      default_devices-output before after d _ _ e h

  default_devices-input :
      (before after : List (AudioDeviceInfo F)) (d output input : AudioDeviceInfo F)
      → d.is_default_input ≡ true
      → All (λ other. other.is_default_input ≡ false) after
      → (default_devices backend (before ++ d ∷ after) output input).1 ≡ d
  unfolding default_devices
  default_devices-input [] after d output input e h =
      default_devices-no_input after _ _ h ∙ chosen d input e
  default_devices-input (x ∷ before) after d output input e h =
      default_devices-input before after d _ _ e h

  both_found :
      (output input : AudioDeviceInfo F)
      → IsLast (λ d. d.is_default_output) backend.devices output
      → IsLast (λ d. d.is_default_input) backend.devices input
      → default_devices backend backend.devices backend.default_info backend.default_info
        ≡ (output, input)
  unfolding IsLast
  both_found output input (before, after, same, e, h) (before', after', same', e', h') =
      let o =
        default_devices-output before after output backend.default_info backend.default_info e h in
      let i =
        default_devices-input before' after' input backend.default_info backend.default_info e'
          h' in
      cc

  module _ (output input : AudioDeviceInfo F) where
    -- The two nominal rates do not differ, and the rate is both; or it is the smaller.
    pub IsCommonRate : F → Type 0
    IsCommonRate rate =
        ((backend.differ output.nominal_samplerate input.nominal_samplerate ≡ true)
          × (rate ≡ backend.smaller output.nominal_samplerate input.nominal_samplerate))
        ⊎ ((backend.differ output.nominal_samplerate input.nominal_samplerate ≡ false)
            × (rate ≡ output.nominal_samplerate)
            × (rate ≡ input.nominal_samplerate))

    abbrev pub for_input : F → StreamConfig F
    for_input rate = record {
      device_index = input.index;
      desired_channels = min 1 input.num_input_channels;
      desired_samplerate = rate;
    }

    abbrev pub for_output : F → StreamConfig F
    for_output rate = record {
      device_index = output.index;
      desired_channels = min 2 output.num_output_channels;
      desired_samplerate = rate;
    }

    -- Where the list has a default output and a default input, with indices other than -1, and two
    -- rates that do not differ are the same, the last such output and the last such input are
    -- configured. Both get one sample rate, which is that of both devices or the smaller of the
    -- two. Asked for no input, the call configures the output with that rate too, and the input
    -- configuration is the default one, with that rate where the two differ.
    pub labsound_get_default_device_config_matching :
        (i o : StreamConfig F)
        → IsLast (λ d. d.is_default_output) backend.devices output
        → IsLast (λ d. d.is_default_input) backend.devices input
        → exists output.index ≡ true
        → exists input.index ≡ true
        → ((a b : F) → backend.differ a b ≡ false → a ≡ b)
        → (rate : F) × (config : StreamConfig F) × IsCommonRate rate
          × (labsound_get_default_device_config backend (some i) (some o) true
              ≡ (true, some (for_input rate), some (for_output rate)))
          × (labsound_get_default_device_config backend (some i) (some o) false
              ≡ (true, some config, some (for_output rate)))
          × (((backend.differ output.nominal_samplerate input.nominal_samplerate ≡ false)
                × (config ≡ backend.default_config))
              ⊎ ((backend.differ output.nominal_samplerate input.nominal_samplerate ≡ true)
                  × (config ≡ record backend.default_config { desired_samplerate = rate })))
    unfolding labsound_get_default_device_config IsCommonRate
    labsound_get_default_device_config_matching i o last_output last_input e f same =
        let found = both_found output input last_output last_input in
        elim (Bool-cases (backend.differ output.nominal_samplerate input.nominal_samplerate)) [
          | inl d ↦
              let rate : F = backend.smaller output.nominal_samplerate input.nominal_samplerate in
              (
                rate,
                record backend.default_config { desired_samplerate = rate },
                inl (d, refl),
                rw (found, f, found, e, d, labsound_get_default_device_config) refl,
                rw (found, e, d, labsound_get_default_device_config) refl,
                inr (d, refl),
              )
          | inr d ↦ (
            output.nominal_samplerate,
            backend.default_config,
            inr (d, refl, same output.nominal_samplerate input.nominal_samplerate d),
            rw (found, f, found, e, d, labsound_get_default_device_config)
                (ap (λ r. (true, some (for_input r), some (for_output output.nominal_samplerate)))
                  (sym (same output.nominal_samplerate input.nominal_samplerate d))),
            rw (found, e, d, labsound_get_default_device_config) refl,
            inl (d, refl),
          )
        ]
