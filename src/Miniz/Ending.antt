-- ===== src/Miniz/Ending.antt =====
-- `lmz_inflator_deflator_impl`: its loop goes on while the buffer of a round is full.
use evo_runtime.Common.{
  ℕ, zero, suc, ◌<◌, ◌≡◌, ◌≢◌, ◌⊎◌, Bool, true, false, Option, some, [], ◌∷◌, ◌++◌, if◌then◌else◌,
  length,
}
use evo_runtime.Common.Bytes.{Bytes}
use evo_runtime.Miniz.Values.{LuaValue, Returned, pushed_string}
use evo_runtime.Miniz.Codec.{Status, Miniz}
use evo_runtime.Miniz.Streams.{Round, Engine, LmzStream}

module _ (miniz : Miniz) {S : Type 0} (engine : Engine S) (mode flush : ℕ) where
  -- A round on a deflator has the mode 0, one on an inflator another.
  round_in : ℕ → S → Round S
  round_in zero s = engine.deflate s flush
  round_in (suc m) s = engine.inflate s flush

  pub round_on : S → Round S
  round_on = round_in mode

  -- The stream after a number of rounds.
  pub after : ℕ → S → S
  after zero s = s
  after (suc n) s = after n (round_on s).after

  pub failed : Status → Bool
  failed (Status.other n) = true
  failed _ = false

  -- What a round gives to the text: nothing, where the status says that it had no room or failed.
  pub kept : Round S → Bytes
  kept round = elim round.status [
    | Status.ok ↦ round.added
    | Status.stream_end ↦ round.added
    | Status.buf_error ↦ []
    | Status.other n ↦ []
  ]

  -- The text of a number of rounds.
  pub gathered : ℕ → S → Bytes
  gathered zero s = []
  gathered (suc n) s = kept (round_on s) ++ gathered n (round_on s).after

  -- A round that is followed by another: it did not fail, and filled the buffer.
  pub IsFull : S → Type 0
  IsFull s = (failed (round_on s).status ≡ false) × (length (round_on s).added ≡ engine.buffer_size)

  -- A round that is the last one: it failed, or left room in the buffer.
  pub IsLast : S → Type 0
  IsLast s = (failed (round_on s).status ≡ true) ⊎ (length (round_on s).added ≢ engine.buffer_size)

  -- What the function returns where the last round leaves a text.
  pub answer : Round S → Bytes → Returned
  answer round text =
      if failed round.status
      then Returned.values
          (LuaValue.nil ∷ pushed_string (miniz.error round.status) ∷ LuaValue.text text ∷ [])
      else Returned.values (LuaValue.text text ∷ [])

  stream_at : S → LmzStream S
  stream_at s = record { mode = mode; stream = s }

  -- The first `n` rounds from `s` are full.
  pub AllFull : ℕ → S → Type 0
  AllFull n s = (k : ℕ) → k < n → IsFull (after k s)

  -- The first `n` rounds are full and the one behind them is the last, in which case the result is
  -- the text of all of them behind what there was before.
  pub EndsAfter : ℕ → S → Bytes → Option (Returned × LmzStream S) → Type 0
  EndsAfter n s buf result =
      AllFull n s
      × IsLast (after n s)
      × (result
          ≡ some (
            answer (round_on (after n s)) (buf ++ gathered (suc n) s),
            record { mode = mode; stream = after (suc n) s },
          ))
