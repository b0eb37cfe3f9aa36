-- ===== src/LuaVirtualMachine/Interface.antt =====
-- The part of Lua's C API that Runtime/LuaVirtualMachine.cpp calls. Lua is not in the repository:
-- the functions are a parameter, and `Documented` is what its manual says of the stack's height.
use evo_runtime.Common.{ℕ, suc, ◌+◌, ◌-◌, ◌≡◌, Bool, false, Option, if◌then◌else◌}
use evo_runtime.Common.Bytes.{Bytes}

-- A C function is a number, a light userdata too. Of the indices only -1 and -2 occur, whose uses
-- are told apart by name: `getfield` reads the table on top, `setfield` and `rawseti` set a field
-- of the table below the top. A text that is null is `none`. `true` is LUA_OK.
pub record Lua : Type 1 where
  pub State : Type 0
  pub gettop : State → ℕ
  pub newstate : State
  pub openlibs : State → State
  pub pushcfunction : ℕ → State → State
  pub getglobal : Bytes → State → State
  pub setglobal : Bytes → State → State
  pub getfield : Bytes → State → State
  pub setfield : Bytes → State → State
  pub rawseti : ℕ → State → State
  pub pushstring : Option Bytes → State → State
  pub pushlightuserdata : ℕ → State → State
  pub createtable : ℕ → State → State
  pub istable : State → Bool
  pub remove_top : State → State
  pub pop : ℕ → State → State
  pub call : (arguments results : ℕ) → State → State
  pub loadbuffer : (chunk name : Bytes) → State → Bool × State
  pub pcall : (arguments results handler : ℕ) → State → Bool × State
  pub dofile : Bytes → State → Bool × State

-- A chunk that does not load leaves its message in place of the function, and a message cannot be
-- called.
pub record Documented (lua : Lua) : Type 0 where
  pub pushcfunction :
      (f : ℕ) (s : lua.State) → lua.gettop (lua.pushcfunction f s) ≡ suc (lua.gettop s)
  pub getglobal :
      (name : Bytes) (s : lua.State) → lua.gettop (lua.getglobal name s) ≡ suc (lua.gettop s)
  pub setglobal :
      (name : Bytes) (s : lua.State) → lua.gettop (lua.setglobal name s) ≡ lua.gettop s - 1
  pub getfield :
      (name : Bytes) (s : lua.State) → lua.gettop (lua.getfield name s) ≡ suc (lua.gettop s)
  pub setfield :
      (name : Bytes) (s : lua.State) → lua.gettop (lua.setfield name s) ≡ lua.gettop s - 1
  pub rawseti : (i : ℕ) (s : lua.State) → lua.gettop (lua.rawseti i s) ≡ lua.gettop s - 1
  pub pushstring :
      (text : Option Bytes) (s : lua.State)
      → lua.gettop (lua.pushstring text s) ≡ suc (lua.gettop s)
  pub pushlightuserdata :
      (p : ℕ) (s : lua.State) → lua.gettop (lua.pushlightuserdata p s) ≡ suc (lua.gettop s)
  pub createtable :
      (size : ℕ) (s : lua.State) → lua.gettop (lua.createtable size s) ≡ suc (lua.gettop s)
  pub remove_top : (s : lua.State) → lua.gettop (lua.remove_top s) ≡ lua.gettop s - 1
  pub pop : (n : ℕ) (s : lua.State) → lua.gettop (lua.pop n s) ≡ lua.gettop s - n
  pub call : (n k : ℕ) (s : lua.State) → lua.gettop (lua.call n k s) ≡ (lua.gettop s - suc n) + k
  pub loadbuffer :
      (chunk name : Bytes) (s : lua.State)
      → lua.gettop (lua.loadbuffer chunk name s).1 ≡ suc (lua.gettop s)
  pub pcall :
      (n k handler : ℕ) (s : lua.State)
      → lua.gettop (lua.pcall n k handler s).1
        ≡ (lua.gettop s - suc n) + (if (lua.pcall n k handler s).0 then k else 1)
  pub no_call :
      (chunk name : Bytes) (n k handler : ℕ) (s : lua.State)
      → (lua.loadbuffer chunk name s).0 ≡ false
      → (lua.pcall n k handler (lua.loadbuffer chunk name s).1).0 ≡ false
