-- ===== src/Audio/Identifiers.antt =====
-- What `labsound_get_device_info` writes into the caller's memory.
use evo_runtime.Common.{
  ℕ, zero, suc, ◌≤◌, ◌<◌, ◌≡◌, refl, ap, ◌∙◌, true, none, some, List, [], ◌∷◌, ◌++◌, arith, length,
  take, drop, get_elem?, leb, ◌⊎◌, inl, inr, Bool-cases, Option-cases, take-append, length-append,
  length-drop,
}
use evo_runtime.Common.Bytes.{
  Bytes, NoNul, c_string, c_string_id, strncpy, store, padded, length-padded,
}
use evo_runtime.Common.Copies.{strncpy_room}
use evo_runtime.Audio.Devices.{
  AudioDeviceInfo, DeviceInfo, Backend, copy_rates, copy_identifier, labsound_get_device_info,
}

take_whole : (x : Bytes) → take (length x) x ≡ x
take_whole [] = refl
take_whole (a ∷ x) = ap (λ y. a ∷ y) (take_whole x)

store_past : (x : Bytes) (i b : ℕ) → length x ≤ i → store x i b ≡ none
unfolding store
store_past [] i b h = refl
store_past (a ∷ x) zero b h = absurd (omega (arith, h))
store_past (a ∷ x) (suc i) b h = rw (store_past x i b (omega (arith, h))) refl

module _ {F : Type 0} (backend : Backend F) where
  copy_rates_fits :
      (rates memory : List F)
      → length rates ≤ length memory
      → copy_rates backend rates memory ≡ some (rates ++ drop (length rates) memory)
  unfolding copy_rates
  copy_rates_fits [] memory h = refl
  copy_rates_fits (r ∷ rates) [] h = absurd (omega (arith, h))
  copy_rates_fits (r ∷ rates) (m ∷ memory) h =
      rw (copy_rates_fits rates memory (omega (arith, h))) refl

  copy_rates_overruns :
      (rates memory : List F)
      → length memory < length rates
      → copy_rates backend rates memory ≡ none
  unfolding copy_rates
  copy_rates_overruns [] memory h = absurd (omega (arith, h))
  copy_rates_overruns (r ∷ rates) [] h = refl
  copy_rates_overruns (r ∷ rates) (m ∷ memory) h =
      rw (copy_rates_overruns rates memory (omega (arith, h))) refl

  copy_identifier_fits :
      (memory identifier : Bytes)
      → length identifier < length memory
      → (filled : Bytes) × (copy_identifier backend memory identifier ≡ some filled)
        × (c_string filled ≡ take (length identifier) (c_string identifier))
        × (length filled ≡ length memory)
        × (drop (suc (length identifier)) filled ≡ drop (suc (length identifier)) memory)
  unfolding copy_identifier
  copy_identifier_fits memory identifier h = strncpy_room (length identifier) memory identifier h

  copy_identifier_overruns :
      (memory identifier : Bytes)
      → length memory ≤ length identifier
      → copy_identifier backend memory identifier ≡ none
  unfolding copy_identifier strncpy
  copy_identifier_overruns memory identifier h =
      elim (Bool-cases (leb (length identifier) (length memory))) [
        | inr e ↦ rw e refl
        | inl e ↦ rw e (
            store_past
              (padded (length identifier) (c_string identifier) ++ drop (length identifier) memory)
              (length identifier) 0
              (omega (
                arith,
                h,
                length-append (padded (length identifier) (c_string identifier))
                    (drop (length identifier) memory),
                length-padded (length identifier) (c_string identifier),
                length-drop (length identifier) memory,
              )))
      ]

  -- The information on a device that the list has is copied, each member into the one of its name,
  -- where its name has no NUL and fits into the caller's memory with one behind it, and its sample
  -- rates fit too; the name is then read back as it is, and the rates stand first in their array.
  pub labsound_get_device_info_lem :
      (device_index : ℕ) (memory : DeviceInfo F) (info : AudioDeviceInfo F)
      → get_elem? backend.devices device_index ≡ some info
      → NoNul info.identifier
      → length info.identifier < length memory.identifier
      → length info.supported_samplerates ≤ length memory.supported_samplerates
      → (copy : DeviceInfo F) × (labsound_get_device_info backend device_index (some memory)
          ≡ some (true, some copy))
        × (c_string copy.identifier ≡ info.identifier)
        × (take (length info.supported_samplerates) copy.supported_samplerates
            ≡ info.supported_samplerates)
        × (copy.nominal_samplerate ≡ info.nominal_samplerate)
        × (copy.index ≡ info.index)
        × (copy.num_output_channels ≡ info.num_output_channels)
        × (copy.num_input_channels ≡ info.num_input_channels)
        × (copy.is_default_output ≡ info.is_default_output)
        × (copy.is_default_input ≡ info.is_default_input)
  unfolding labsound_get_device_info
  labsound_get_device_info_lem device_index memory info found clean room rates =
      let (identifier, ok, text, _, _) =
        copy_identifier_fits memory.identifier info.identifier room in
      (
        record {
          index = info.index;
          identifier = identifier;
          num_output_channels = info.num_output_channels;
          num_input_channels = info.num_input_channels;
          supported_samplerates =
              info.supported_samplerates
              ++ drop (length info.supported_samplerates) memory.supported_samplerates;
          nominal_samplerate = info.nominal_samplerate;
          is_default_output = info.is_default_output;
          is_default_input = info.is_default_input;
        },
        rw
            (
              found,
              ok,
              copy_rates_fits info.supported_samplerates memory.supported_samplerates rates,
            )
            refl,
        text
            ∙ (ap (take (length info.identifier)) (c_string_id info.identifier clean)
                ∙ take_whole info.identifier),
        take-append (length info.supported_samplerates) info.supported_samplerates _ refl,
        refl,
        refl,
        refl,
        refl,
        refl,
        refl,
      )

  -- A device past the end of the list, a name that leaves no room for its NUL, and too many sample
  -- rates make the copy read or write outside its memory.
  pub labsound_get_device_info_overruns :
      (device_index : ℕ) (memory : DeviceInfo F) (info : AudioDeviceInfo F)
      → ((get_elem? backend.devices device_index ≡ none))
        ⊎ ((get_elem? backend.devices device_index ≡ some info)
            × ((length memory.identifier ≤ length info.identifier)
                ⊎ (length memory.supported_samplerates < length info.supported_samplerates)))
      → labsound_get_device_info backend device_index (some memory) ≡ none
  unfolding labsound_get_device_info
  labsound_get_device_info_overruns device_index memory info (inl gone) = rw gone refl
  labsound_get_device_info_overruns device_index memory info (inr (found, inl long)) =
      rw (found, copy_identifier_overruns memory.identifier info.identifier long) refl
  labsound_get_device_info_overruns device_index memory info (inr (found, inr many)) =
      elim (Option-cases (copy_identifier backend memory.identifier info.identifier)) [
        | inl e ↦ rw (found, e) refl
        | inr (identifier, e) ↦
            rw
              (
                found,
                e,
                copy_rates_overruns info.supported_samplerates memory.supported_samplerates many,
              )
              refl
      ]
