-- ===== src/Examples/Scripts.antt =====
-- A Lua of which only the height of the stack is kept, and whether the chunk on top can run: every
-- chunk but the empty one can. The theorems of LuaVirtualMachine.cpp at it.
use evo_runtime.Common.{ℕ, suc, ◌+◌, ◌-◌, ◌≡◌, refl, Bool, true, false, [], ◌∷◌, if◌then◌else◌, All}
use evo_runtime.Common.Bytes.{Bytes, codes, c_string}
use evo_runtime.Common.Int.{pos}
use evo_runtime.LuaVirtualMachine.Interface.{Lua, Documented}
use evo_runtime.LuaVirtualMachine.Machine.{Machine, do_string}
use evo_runtime.LuaVirtualMachine.Machine.{new_machine}
use evo_runtime.LuaVirtualMachine.Startup.{Environment, prepared, prepared-gettop}
use evo_runtime.Common.{◌+◌}
use evo_runtime.LuaVirtualMachine.Stack.{do_strings, do_string-after_error}

abbrev can_run : Bytes → Bool
can_run [] = false
can_run (c ∷ chunk) = true

abbrev pushed : ℕ × Bool → ℕ × Bool
pushed (top, runs) = (suc top, runs)

abbrev popped : ℕ → ℕ × Bool → ℕ × Bool
popped n (top, runs) = (top - n, runs)

abbrev lua : Lua
lua = record {
  State = ℕ × Bool;
  gettop = λ s. s.0;
  newstate = (0, false);
  openlibs = λ s. s;
  pushcfunction = λ f s. pushed s;
  getglobal = λ name s. pushed s;
  setglobal = λ name s. popped 1 s;
  getfield = λ name s. pushed s;
  setfield = λ name s. popped 1 s;
  rawseti = λ i s. popped 1 s;
  pushstring = λ text s. pushed s;
  pushlightuserdata = λ p s. pushed s;
  createtable = λ size s. pushed s;
  istable = λ s. true;
  remove_top = λ s. popped 1 s;
  pop = λ n s. popped n s;
  call = λ n k s. ((s.0 - suc n) + k, false);
  loadbuffer = λ chunk name s. (true, (suc s.0, can_run chunk));
  pcall = λ n k handler s. (s.1, ((s.0 - suc n) + (if s.1 then k else 1), false));
  dofile = λ path s. (true, s);
}

lua-Documented : Documented lua
lua-Documented = record {
  pushcfunction = λ f s. refl;
  getglobal = λ name s. refl;
  setglobal = λ name s. refl;
  getfield = λ name s. refl;
  setfield = λ name s. refl;
  rawseti = λ i s. refl;
  pushstring = λ text s. refl;
  pushlightuserdata = λ p s. refl;
  createtable = λ size s. refl;
  remove_top = λ s. refl;
  pop = λ n s. refl;
  call = λ n k s. refl;
  loadbuffer = λ chunk name s. refl;
  pcall = λ n k handler s. refl;
  no_call = λ chunk name n k handler s h. absurd (cc (h));
}

abbrev machine : Machine lua
machine = record {
  state = (1, false);
  on_lua_error_index = 1;
  num_expected_args_from_lua_main = 1;
  relative_stack_offset = pos 0;
}

abbrev env : Environment
env = record {
  on_lua_error = 3;
  empty_package_loader = 5;
  luaopen = λ name. 6;
  exports_table = λ name. 7;
  loop_init = pos 0;
  curl_init = pos 0;
  loop_run = pos 0;
}

prepared-gettop_example :
    (lua.gettop (prepared lua env (codes "evo" ∷ [])).state
      ≡ lua.gettop (new_machine lua 3).state + 9)
    × ((prepared lua env (codes "evo" ∷ [])).relative_stack_offset ≡ pos 0)
prepared-gettop_example = prepared-gettop lua lua-Documented env (codes "evo" ∷ [])

do_string-after_error_example :
    All
      (λ b. b ≡ false)
      (do_strings lua ((codes "return 1", codes "b") ∷ []) (do_string lua [] (codes "a") machine).1)
unfolding c_string
do_string-after_error_example =
    do_string-after_error lua lua-Documented [] (codes "a") ((codes "return 1", codes "b") ∷ [])
      machine 0 refl refl refl
