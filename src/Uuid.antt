-- ===== src/Uuid.antt =====
-- Runtime/Bindings/FFI/stduuid/stduuid_ffi.cpp: the ids that requests and clients are given, as
-- texts. What the generators of stduuid make is given, as the text that `uuids::to_string` writes.
use evo_runtime.Common.{
  ℕ, suc, length-append, length-drop, le→leb, ◌<◌, ◌≡◌, ◌∙◌, ap, refl, Bool, true, Option, none,
  some, [], ◌∷◌, ◌++◌, arith, length, take, drop,
}
use evo_runtime.Common.Bytes.{
  Bytes, NoNul, c_string, taken_nul, memcpy, store, store-append, drop_step, ◌>>=◌,
}

-- The exception of `from_string(...).value()` for a text that is no UUID.
pub data Creation : Type 0 where
  bad_optional_access : Creation
  created : Option (Bool × Bytes) → Creation

-- `memcpy(result, str_id.c_str(), str_id.size()); (*result)[str_id.size()] = '\0';`, and the result
-- of the function. A write outside the caller's memory is `none`.
unfoldable pub write_id : Bytes → Bytes → Option (Bool × Bytes)
write_id str_id result = memcpy result str_id (length str_id) >>= λ copied.
    store copied (length str_id) 0 >>= λ ended. some (true, ended)

unfoldable pub uuid_create_v4 : Bytes → Bytes → Creation
unfolding write_id
uuid_create_v4 str_id result = Creation.created (write_id str_id result)

unfoldable pub uuid_create_mt19937 : Bytes → Bytes → Creation
unfolding write_id
uuid_create_mt19937 str_id result = Creation.created (write_id str_id result)

unfoldable pub uuid_create_system : Bytes → Bytes → Creation
unfolding write_id
uuid_create_system str_id result = Creation.created (write_id str_id result)

-- `from_string` parses the namespace; `generate` is the generator for names, and `to_string`.
unfoldable pub uuid_create_v5 :
    (from_string : Bytes → Option ℕ)
    → (generate : ℕ → Bytes → Bytes) → Bytes
    → Bytes
    → Bytes
    → Creation
unfolding write_id
uuid_create_v5 from_string generate namespace_uuid_str name result =
    elim (from_string (c_string namespace_uuid_str)) [
      | none ↦ Creation.bad_optional_access
      | some namespace_uuid ↦
          Creation.created (write_id (generate namespace_uuid (c_string name)) result)
    ]

take_whole : (x : Bytes) → take (length x) x ≡ x
take_whole [] = refl
take_whole (a ∷ x) = ap (λ y. a ∷ y) (take_whole x)

-- An id that is shorter than the caller's memory is written with its NUL and read back as it is.
write_id-text :
    (str_id result : Bytes)
    → NoNul str_id
    → length str_id < length result
    → (filled : Bytes) × (write_id str_id result ≡ some (true, filled))
      × (c_string filled ≡ str_id)
      × (length filled ≡ length result)
unfolding write_id memcpy
write_id-text str_id result clean room =
    let (b, e) = drop_step (length str_id) result room in
    (
      str_id ++ 0 ∷ drop (suc (length str_id)) result,
      rw
          (
            le→leb (length str_id) (length result) (omega (arith, room)),
            take_whole str_id,
            e,
            store-append str_id b (drop (suc (length str_id)) result) (length str_id) 0 refl,
          )
          refl,
      taken_nul str_id (drop (suc (length str_id)) result) clean,
      omega (
        arith,
        room,
        length-append str_id (0 ∷ drop (suc (length str_id)) result),
        length-drop (suc (length str_id)) result,
      ),
    )

uuid_create_v5-found :
    (from_string : Bytes → Option ℕ) (generate : ℕ → Bytes → Bytes)
    (namespace_uuid_str name result : Bytes) (namespace_uuid : ℕ)
    → from_string (c_string namespace_uuid_str) ≡ some namespace_uuid
    → uuid_create_v5 from_string generate namespace_uuid_str name result
      ≡ Creation.created (write_id (generate namespace_uuid (c_string name)) result)
unfolding uuid_create_v5
uuid_create_v5-found from_string generate namespace_uuid_str name result namespace_uuid parsed =
    rw (parsed, uuid_create_v5) refl

-- Each of the functions that return an id writes one that is shorter than the caller's memory
-- whole, with a NUL behind it, and the text read from the memory is the id; `uuid_create_v5` does
-- so for every namespace that is a UUID.
pub uuid_create_lem :
    (str_id result namespace_uuid_str name : Bytes) (from_string : Bytes → Option ℕ)
    (generate : ℕ → Bytes → Bytes) (namespace_uuid : ℕ)
    → NoNul str_id
    → length str_id < length result
    → from_string (c_string namespace_uuid_str) ≡ some namespace_uuid
    → generate namespace_uuid (c_string name) ≡ str_id
    → (filled : Bytes) × (uuid_create_v4 str_id result ≡ Creation.created (some (true, filled)))
      × (uuid_create_mt19937 str_id result ≡ Creation.created (some (true, filled)))
      × (uuid_create_system str_id result ≡ Creation.created (some (true, filled)))
      × (uuid_create_v5 from_string generate namespace_uuid_str name result
          ≡ Creation.created (some (true, filled)))
      × (c_string filled ≡ str_id)
      × (length filled ≡ length result)
uuid_create_lem str_id result namespace_uuid_str name from_string generate namespace_uuid clean room
      parsed made =
    let (filled, ok, text, size) = write_id-text str_id result clean room in
    (
      filled,
      unfold uuid_create_v4 in ap Creation.created ok,
      unfold uuid_create_mt19937 in ap Creation.created ok,
      unfold uuid_create_system in ap Creation.created ok,
      uuid_create_v5-found from_string generate namespace_uuid_str name result namespace_uuid parsed
          ∙ ap (λ t. Creation.created (write_id t result)) made
          ∙ ap Creation.created ok,
      text,
      size,
    )
