-- ===== src/LuaVirtualMachine/Startup.antt =====
-- Runtime/main.cpp and Runtime/SharedEventLoop.hpp: how the runtime comes up, runs its entry chunk
-- and its event loop, and ends.
use evo_runtime.Common.{
  ℕ, ◌+◌, ◌≡◌, refl, ◌∙◌, Bool, true, false, not, Option, none, some, List, [], ◌∷◌, if◌then◌else◌,
  length, arith,
}
use evo_runtime.Common.Bytes.{Bytes, codes}
use evo_runtime.Common.Int.{ℤ, pos}
use evo_runtime.LuaVirtualMachine.Interface.{Lua, Documented}
use evo_runtime.LuaVirtualMachine.Machine.{
  Machine, is_zero, new_machine, load_package, set_global_args, bind_static_library_exports,
  create_global_namespace, do_string,
}
use evo_runtime.LuaVirtualMachine.Stack.{globals-gettop}

-- The exceptions that SharedEventLoop throws, with what they are about.
pub data LoopError : Type 0 where
  no_event_loop : ℤ → LoopError
  no_curl : ℤ → LoopError
  active_references : ℤ → LoopError

-- The process ends with EXIT_SUCCESS, `true`, or EXIT_FAILURE, or by an exception.
pub data Outcome : Type 0 where
  exits : Bool → Outcome
  throws : LoopError → Outcome

-- Addresses in the executable, by the names that the packages have in Lua, and the answers of libuv
-- and libcurl.
pub record Environment : Type 0 where
  pub on_lua_error : ℕ
  pub empty_package_loader : ℕ
  pub luaopen : Bytes → ℕ
  pub exports_table : Bytes → ℕ
  pub loop_init : ℤ
  pub curl_init : ℤ
  pub loop_run : ℤ

-- The packages in the order in which they are loaded; the last has no loader.
unfoldable pub packages : Environment → List (Bytes × Option ℕ)
packages env =
    (codes "uv", some (env.luaopen (codes "uv")))
    ∷ (codes "lpeg", some (env.luaopen (codes "lpeg")))
    ∷ (codes "miniz", some (env.luaopen (codes "miniz")))
    ∷ (codes "openssl", some (env.luaopen (codes "openssl")))
    ∷ (codes "regex", some (env.luaopen (codes "regex")))
    ∷ (codes "json", some (env.luaopen (codes "json")))
    ∷ (codes "utf8", some (env.luaopen (codes "utf8")))
    ∷ (codes "zlib", some (env.luaopen (codes "zlib")))
    ∷ (codes "bindings", none)
    ∷ []

unfoldable pub library_names : List Bytes
library_names =
    codes "cpp"
    ∷ codes "crypto"
    ∷ codes "curl"
    ∷ codes "glfw"
    ∷ codes "iconv"
    ∷ codes "interop"
    ∷ codes "labsound"
    ∷ codes "webview"
    ∷ codes "uws"
    ∷ codes "rml"
    ∷ codes "runtime"
    ∷ codes "stbi"
    ∷ codes "stduuid"
    ∷ codes "wgpu"
    ∷ []

module _ (lua : Lua) (env : Environment) where
  unfoldable pub load_packages : List (Bytes × Option ℕ) → Machine lua → Machine lua
  load_packages [] m = m
  load_packages ((name, loader) ∷ rest) m =
      load_packages rest (load_package lua env.empty_package_loader name loader m).1

  unfoldable pub bind_libraries : List Bytes → Machine lua → Machine lua
  bind_libraries [] m = m
  bind_libraries (name ∷ rest) m =
      bind_libraries rest (bind_static_library_exports lua name (env.exports_table name) m)

  -- The constructor of SharedEventLoop: the exception that it throws, if any.
  unfoldable pub open_event_loop : Option LoopError
  open_event_loop =
      if not (is_zero env.loop_init)
      then some (LoopError.no_event_loop env.loop_init)
      else if not (is_zero env.curl_init)
      then some (LoopError.no_curl env.curl_init)
      else none

  -- `RunMainLoopUntilDone`, and the end of `main` behind it.
  unfoldable pub run_main_loop : Outcome
  run_main_loop =
      if not (is_zero env.loop_run)
      then Outcome.throws (LoopError.active_references env.loop_run)
      else Outcome.exits true

  -- The machine when the entry chunk is run.
  unfoldable pub prepared : List Bytes → Machine lua
  prepared argv =
      let created = (set_global_args lua argv (new_machine lua env.on_lua_error)).1 in
      create_global_namespace lua (codes "C_Runtime")
        (bind_libraries library_names (load_packages (packages env) created))

  unfoldable pub main : List Bytes → (chunk_name : Bytes) → Outcome
  unfolding open_event_loop run_main_loop prepared
  main argv chunk_name = elim open_event_loop [
    | some error ↦ Outcome.throws error
    | none ↦
        let (success, after) =
          do_string lua (codes "local evo = require('evo'); return evo.run()") chunk_name
            (prepared argv) in
        if not success then Outcome.exits false else run_main_loop
  ]

module _ (lua : Lua) (documented : Documented lua) (env : Environment) where
  load_package-offset :
      (name : Bytes) (loader : Option ℕ) (m : Machine lua)
      → (load_package lua env.empty_package_loader name loader m).1.relative_stack_offset
        ≡ m.relative_stack_offset
  unfolding load_package
  load_package-offset name loader m = refl

  bind-offset :
      (name : Bytes) (m : Machine lua)
      → (bind_static_library_exports lua name (env.exports_table name) m).relative_stack_offset
        ≡ m.relative_stack_offset
  unfolding bind_static_library_exports
  bind-offset name m = refl

  namespace-offset :
      (name : Bytes) (m : Machine lua)
      → (create_global_namespace lua name m).relative_stack_offset ≡ m.relative_stack_offset
  unfolding create_global_namespace
  namespace-offset name m = refl

  new_machine-offset : (new_machine lua env.on_lua_error).relative_stack_offset ≡ pos 0
  unfolding new_machine
  new_machine-offset = refl

  length-packages : length (packages env) ≡ 9
  unfolding packages
  length-packages = refl

  load_packages-gettop :
      (names : List (Bytes × Option ℕ)) (m : Machine lua)
      → (lua.gettop (load_packages lua env names m).state ≡ lua.gettop m.state + length names)
        × ((load_packages lua env names m).relative_stack_offset ≡ m.relative_stack_offset)
  unfolding load_packages
  load_packages-gettop [] m = (omega arith, refl)
  load_packages-gettop ((name, loader) ∷ rest) m =
      let loaded : Machine lua = (load_package lua env.empty_package_loader name loader m).1 in
      let (height, count) = load_packages-gettop rest loaded in
      let (_, _, _, _, one) =
        globals-gettop lua documented [] name 0 env.empty_package_loader loader m in
      (omega (arith, height, one), count ∙ load_package-offset name loader m)

  bind_libraries-gettop :
      (names : List Bytes) (m : Machine lua)
      → (lua.gettop (bind_libraries lua env names m).state ≡ lua.gettop m.state)
        × ((bind_libraries lua env names m).relative_stack_offset ≡ m.relative_stack_offset)
  unfolding bind_libraries
  bind_libraries-gettop [] m = (refl, refl)
  bind_libraries-gettop (name ∷ rest) m =
      let bound : Machine lua = bind_static_library_exports lua name (env.exports_table name) m in
      let (height, count) = bind_libraries-gettop rest bound in
      let (_, _, same, _, _) =
        globals-gettop lua documented [] name (env.exports_table name) 0 none m in
      (height ∙ same, count ∙ bind-offset name m)

  -- When the entry chunk is run, the stack holds nine values more than that of a new machine, one
  -- for each package that was loaded, while the machine's own count of the stack is zero.
  pub prepared-gettop :
      (argv : List Bytes)
      → (lua.gettop (prepared lua env argv).state
          ≡ lua.gettop (new_machine lua env.on_lua_error).state + 9)
        × ((prepared lua env argv).relative_stack_offset ≡ pos 0)
  unfolding prepared
  prepared-gettop argv =
      let fresh : Machine lua = new_machine lua env.on_lua_error in
      let created : Machine lua = (set_global_args lua argv fresh).1 in
      let loaded : Machine lua = load_packages lua env (packages env) created in
      let bound : Machine lua = bind_libraries lua env library_names loaded in
      let (args, args_count, _, _, _) = globals-gettop lua documented argv [] 0 0 none fresh in
      let (packages_height, packages_count) = load_packages-gettop (packages env) created in
      let (bound_height, bound_count) = bind_libraries-gettop library_names loaded in
      let (_, _, _, named, _) =
        globals-gettop lua documented [] (codes "C_Runtime") 0 0 none bound in
      (
        omega (arith, args, packages_height, length-packages, bound_height, named),
        namespace-offset (codes "C_Runtime") bound
            ∙ (bound_count ∙ (packages_count ∙ (args_count ∙ new_machine-offset))),
      )
