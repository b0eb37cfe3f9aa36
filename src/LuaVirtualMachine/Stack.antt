-- ===== src/LuaVirtualMachine/Stack.antt =====
-- Runtime/LuaVirtualMachine.cpp: what the methods leave on Lua's stack, and what the class's own
-- count of it says.
use evo_runtime.Common.{
  ℕ, zero, suc, ◌+◌, ◌-◌, ◌≡◌, refl, ap, ◌∙◌, Bool, true, false, Option, none, some, List, [], ◌∷◌,
  if◌then◌else◌, length, arith, Bool-cases, inl, inr, All, get_elem?,
}
use evo_runtime.Common.Bytes.{Bytes, codes, c_string}
use evo_runtime.Common.Int.{ℤ, pos, negsuc}
use evo_runtime.LuaVirtualMachine.Interface.{Lua, Documented}
use evo_runtime.LuaVirtualMachine.Machine.{
  Machine, increment, decrement, check_stack, load_package, compile_chunk, run_compiled_chunk,
  do_string, push_args, set_global_args, bind_static_library_exports, create_global_namespace,
}

inverse : (i : ℤ) → decrement (increment i) ≡ i
inverse (pos n) = refl
inverse (negsuc zero) = refl
inverse (negsuc (suc n)) = refl

module _ (lua : Lua) where
  -- How many values a call of `DoString` leaves on the stack: the expected results of a chunk that
  -- ran, or one message.
  pub left_behind : Machine lua → Bool → ℕ
  left_behind m ran = if ran then m.num_expected_args_from_lua_main else 1

  -- The count is off by at least one chunk.
  pub OffBalance : Machine lua → Type 0
  OffBalance m = (n : ℕ) × (m.relative_stack_offset ≡ pos (suc n))

  -- The results of a list of chunks, one after the other.
  abbrev pub do_strings : List (Bytes × Bytes) → Machine lua → List Bool
  do_strings [] m = []
  do_strings ((chunk, chunk_name) ∷ rest) m =
      let (result, after) = do_string lua chunk chunk_name m in result ∷ do_strings rest after

module _ (lua : Lua) (documented : Documented lua) where
  push_args-gettop :
      (argv : List Bytes) (count index : ℕ) (s : lua.State)
      → lua.gettop (push_args lua argv count index s) ≡ lua.gettop s
  unfolding push_args
  push_args-gettop argv zero index s = refl
  push_args-gettop argv (suc count) index s = ground (
    arith,
    push_args-gettop argv count (suc index)
        (lua.rawseti (index - 1) (lua.pushstring (get_elem? argv index) s)),
    documented.rawseti (index - 1) (lua.pushstring (get_elem? argv index) s),
    documented.pushstring (get_elem? argv index) s,
  )

  -- The methods that set up globals leave the stack as high as it was, and the class's count too;
  -- `LoadPackage` leaves one value more.
  pub globals-gettop :
      (argv : List Bytes) (name : Bytes) (exports loader : ℕ) (package_loader : Option ℕ)
      (m : Machine lua)
      → (lua.gettop (set_global_args lua argv m).1.state ≡ lua.gettop m.state)
        × ((set_global_args lua argv m).1.relative_stack_offset ≡ m.relative_stack_offset)
        × (lua.gettop (bind_static_library_exports lua name exports m).state ≡ lua.gettop m.state)
        × (lua.gettop (create_global_namespace lua name m).state ≡ lua.gettop m.state)
        × (lua.gettop (load_package lua loader name package_loader m).1.state
            ≡ suc (lua.gettop m.state))
  unfolding set_global_args bind_static_library_exports create_global_namespace load_package
  globals-gettop argv name exports loader package_loader m = (
    omega (
      arith,
      documented.setglobal (codes "arg") (push_args lua argv (length argv) 1 created),
      push_args-gettop argv (length argv) 1 created,
      documented.createtable (length argv) m.state,
    ),
    inverse m.relative_stack_offset,
    ground (
      arith,
      documented.pop 3 bindings,
      documented.pop 3 (lua.setfield name (lua.pushlightuserdata exports bindings)),
      documented.setfield name (lua.pushlightuserdata exports bindings),
      documented.pushlightuserdata exports bindings,
      documented.getfield (codes "bindings") loaded,
      height,
    ),
    omega (
      arith,
      documented.setglobal name (lua.createtable 0 m.state),
      documented.createtable 0 m.state,
    ),
    omega (
      arith,
      documented.remove_top (lua.setfield name called),
      documented.setfield name called,
      documented.call 0 1 (lua.pushcfunction chosen loaded),
      documented.pushcfunction chosen loaded,
      height,
    ),
  )
    where
      created : lua.State
      created = lua.createtable (length argv) m.state

      loaded : lua.State
      loaded = lua.getfield (codes "loaded") (lua.getglobal (codes "package") m.state)

      height : lua.gettop loaded ≡ suc (suc (lua.gettop m.state))
      height =
          documented.getfield (codes "loaded") (lua.getglobal (codes "package") m.state)
          ∙ ap suc (documented.getglobal (codes "package") m.state)

      bindings : lua.State
      bindings = lua.getfield (codes "bindings") loaded

      chosen : ℕ
      chosen = elim package_loader [ none ↦ loader | some f ↦ f ]

      called : lua.State
      called = lua.call 0 1 (lua.pushcfunction chosen loaded)

  -- Whatever becomes of the chunk, `DoString` leaves values on the stack: the results of a chunk
  -- that ran, or the message of one that did not load or failed.
  pub do_string-gettop :
      (chunk chunk_name : Bytes) (m : Machine lua)
      → let (loaded, state) = lua.loadbuffer (c_string chunk) chunk_name m.state in
        let ran = (lua.pcall 0 m.num_expected_args_from_lua_main m.on_lua_error_index state).0 in
        lua.gettop (do_string lua chunk chunk_name m).1.state
        ≡ lua.gettop m.state + left_behind lua m ran
  unfolding do_string compile_chunk run_compiled_chunk left_behind
  do_string-gettop chunk chunk_name m = ground (
    arith,
    documented.loadbuffer (c_string chunk) chunk_name m.state,
    documented.pcall 0 m.num_expected_args_from_lua_main m.on_lua_error_index
        (lua.loadbuffer (c_string chunk) chunk_name m.state).1,
  )

  do_string-OffBalance :
      (chunk chunk_name : Bytes) (m : Machine lua)
      → OffBalance lua m
      → ((do_string lua chunk chunk_name m).0 ≡ false)
        × OffBalance lua (do_string lua chunk chunk_name m).1
  unfolding OffBalance do_string compile_chunk run_compiled_chunk check_stack
  do_string-OffBalance chunk chunk_name m (n, e) = elim (Bool-cases loads) [
    | inl l ↦ elim (Bool-cases runs) [
      | inl r ↦ (ground (arith, e, l, r), (n, ground (arith, e, l, r)))
      | inr r ↦ (ground (arith, e, l, r), (suc n, ground (arith, e, l, r)))
    ]
    | inr l ↦
        let r : runs ≡ false =
          documented.no_call (c_string chunk) chunk_name 0 m.num_expected_args_from_lua_main
            m.on_lua_error_index m.state l in
        (ground (arith, e, l, r), (n, ground (arith, e, l, r)))
  ]
    where
      loads : Bool
      loads = (lua.loadbuffer (c_string chunk) chunk_name m.state).0

      runs : Bool
      runs =
          (lua.pcall 0 m.num_expected_args_from_lua_main m.on_lua_error_index
            (lua.loadbuffer (c_string chunk) chunk_name m.state).1).0

  each_fails :
      (chunks : List (Bytes × Bytes)) (m : Machine lua)
      → OffBalance lua m
      → All (λ b. b ≡ false) (do_strings lua chunks m)
  each_fails [] m off = tt
  each_fails ((chunk, chunk_name) ∷ rest) m off =
      let (failed, still) = do_string-OffBalance chunk chunk_name m off in
      (failed, each_fails rest (do_string lua chunk chunk_name m).1 still)

  -- After one chunk that loaded and failed when it ran, every later `DoString` returns false, also
  -- for chunks that run without an error, because the failed chunk is never taken off the count.
  pub do_string-after_error :
      (chunk chunk_name : Bytes) (chunks : List (Bytes × Bytes)) (m : Machine lua) (n : ℕ)
      → m.relative_stack_offset ≡ pos n
      → (lua.loadbuffer (c_string chunk) chunk_name m.state).0 ≡ true
      → (lua.pcall 0 m.num_expected_args_from_lua_main m.on_lua_error_index
          (lua.loadbuffer (c_string chunk) chunk_name m.state).1).0
        ≡ false
      → All (λ b. b ≡ false) (do_strings lua chunks (do_string lua chunk chunk_name m).1)
  do_string-after_error chunk chunk_name chunks m n e loaded failed =
      each_fails chunks (do_string lua chunk chunk_name m).1 (
        unfold OffBalance do_string compile_chunk run_compiled_chunk in
        (n, ground (arith, e, loaded, failed)))
