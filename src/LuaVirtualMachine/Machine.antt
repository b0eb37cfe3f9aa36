-- ===== src/LuaVirtualMachine/Machine.antt =====
-- Runtime/LuaVirtualMachine.cpp: the class's fields as a record, and its methods.
use evo_runtime.Common.{
  ℕ, zero, suc, ◌-◌, Bool, true, false, not, Option, none, some, List, if◌then◌else◌, length,
  get_elem?,
}
use evo_runtime.Common.Bytes.{Bytes, codes, c_string}
use evo_runtime.Common.Int.{ℤ, pos, negsuc}
use evo_runtime.LuaVirtualMachine.Interface.{Lua}

abbrev pub increment : ℤ → ℤ
increment (pos n) = pos (suc n)
increment (negsuc zero) = pos 0
increment (negsuc (suc n)) = negsuc n

abbrev pub decrement : ℤ → ℤ
decrement (pos zero) = negsuc 0
decrement (pos (suc n)) = pos n
decrement (negsuc n) = negsuc (suc n)

abbrev pub is_zero : ℤ → Bool
is_zero (pos zero) = true
is_zero (pos (suc n)) = false
is_zero (negsuc n) = false

module _ (lua : Lua) where
  pub record Machine : Type 0 where
    pub state : lua.State
    pub on_lua_error_index : ℕ
    pub num_expected_args_from_lua_main : ℕ
    pub relative_stack_offset : ℤ

  -- The constructor; `on_lua_error` is the address of the error handler.
  unfoldable pub new_machine : ℕ → Machine
  new_machine on_lua_error =
      let state = lua.pushcfunction on_lua_error (lua.openlibs lua.newstate) in
      record {
        state = state;
        on_lua_error_index = lua.gettop state;
        num_expected_args_from_lua_main = 1;
        relative_stack_offset = pos 0;
      }

  unfoldable pub check_stack : Machine → Bool
  check_stack m = is_zero m.relative_stack_offset

  -- `empty_package_loader` is the address of the loader that is used without one.
  unfoldable pub load_package : ℕ → Bytes → Option ℕ → Machine → Bool × Machine
  load_package empty_package_loader package_name package_loader m =
      let loader : ℕ = elim package_loader [ none ↦ empty_package_loader | some f ↦ f ] in
      let loaded = lua.getfield (codes "loaded") (lua.getglobal (codes "package") m.state) in
      let called = lua.call 0 1 (lua.pushcfunction loader loaded) in
      (true, record m { state = lua.remove_top (lua.setfield package_name called) })

  -- The chunk is passed on as a C string.
  unfoldable pub compile_chunk : Bytes → Bytes → Machine → Bool × Machine
  compile_chunk chunk chunk_name m =
      let (ok, state) = lua.loadbuffer (c_string chunk) chunk_name m.state in
      let after : Machine = record m { state = state } in
      if ok
      then (true, record after { relative_stack_offset = increment m.relative_stack_offset })
      else (false, after)

  unfoldable pub run_compiled_chunk : Machine → Bool × Machine
  unfolding check_stack
  run_compiled_chunk m =
      let (ok, state) =
        lua.pcall 0 m.num_expected_args_from_lua_main m.on_lua_error_index m.state in
      let after : Machine = record m { state = state } in
      let ran : Machine = record after {
        relative_stack_offset = decrement m.relative_stack_offset;
      } in
      if ok then (check_stack ran, ran) else (false, after)

  -- The result of `CompileChunk` is not looked at.
  unfoldable pub do_string : Bytes → Bytes → Machine → Bool × Machine
  unfolding compile_chunk run_compiled_chunk
  do_string chunk chunk_name m =
      let (compiled, loaded) = compile_chunk chunk chunk_name m in
      let (success, ran) = run_compiled_chunk loaded in
      (if not success then false else check_stack ran, ran)

  unfoldable pub do_file : Bytes → Machine → Bool × Machine
  unfolding check_stack
  do_file file_path m =
      let (ok, state) = lua.dofile file_path m.state in
      let after : Machine = record m { state = state } in
      (if ok then check_stack after else false, after)

  -- `for(int index = 1; index < argc + 1; index++)`, with `count` rounds left; the last round
  -- passes the null pointer behind the arguments on.
  unfoldable pub push_args : List Bytes → ℕ → ℕ → lua.State → lua.State
  push_args argv zero index s = s
  push_args argv (suc count) index s =
      push_args argv count (suc index)
        (lua.rawseti (index - 1) (lua.pushstring (get_elem? argv index) s))

  unfoldable pub set_global_args : List Bytes → Machine → Bool × Machine
  unfolding push_args
  set_global_args argv m =
      let argc = length argv in
      let created = lua.createtable argc m.state in
      let pushed = push_args argv argc 1 created in
      let named = lua.setglobal (codes "arg") pushed in
      (
        true,
        record m {
          state = named;
          relative_stack_offset = decrement (increment m.relative_stack_offset);
        },
      )

  unfoldable pub bind_static_library_exports : Bytes → ℕ → Machine → Machine
  bind_static_library_exports field_name static_exports_table m =
      let loaded = lua.getfield (codes "loaded") (lua.getglobal (codes "package") m.state) in
      let bindings = lua.getfield (codes "bindings") loaded in
      let bound =
        if lua.istable bindings
        then lua.setfield field_name (lua.pushlightuserdata static_exports_table bindings)
        else bindings in
      record m { state = lua.pop 3 bound }

  unfoldable pub create_global_namespace : Bytes → Machine → Machine
  create_global_namespace name m = record m {
    state = lua.setglobal name (lua.createtable 0 m.state);
  }
