-- ===== src/Miniz/Registration.antt =====
-- `luaopen_miniz` of Runtime/Bindings/lminiz.cpp: the classes that it registers with Lua and the
-- table of the library. A C function is its name. What Lua's C API does with tables, the registry
-- and the stack is written out; an operation on a stack that is too short is a fault, `none`.
use Prim.Native.String.{String}
use evo_runtime.Common.{ℕ, suc, ◌≡◌, refl, Option, none, some, List, [], ◌∷◌, ◌==◌, if◌then◌else◌}
use evo_runtime.Common.Bytes.{Bytes, codes, key_eq, ◌>>=◌}
use evo_runtime.Common.Map.{Map, find, assign}

pub data Item : Type 0 where
  table : ℕ → Item
  cfunction : String → Item

-- Tables by number, the stack with its top first, and the metatables of the registry by name.
pub record State : Type 0 where
  pub tables : ℕ → Map Item
  pub next : ℕ
  pub stack : List Item
  pub registry : Map ℕ

abbrev Functions : Type 0
Functions = List (String × String)

abbrev lminiz_read_m : Functions
lminiz_read_m =
    ("get_num_files", "lmz_reader_get_num_files")
    ∷ ("stat", "lmz_reader_stat")
    ∷ ("get_filename", "lmz_reader_get_filename")
    ∷ ("is_directory", "lmz_reader_is_file_a_directory")
    ∷ ("extract", "lmz_reader_extract")
    ∷ ("locate_file", "lmz_reader_locate_file")
    ∷ ("get_offset", "lmz_reader_get_offset")
    ∷ []

abbrev lminiz_write_m : Functions
lminiz_write_m =
    ("add_from_zip", "lmz_writer_add_from_zip_reader")
    ∷ ("add", "lmz_writer_add_mem")
    ∷ ("finalize", "lmz_writer_finalize")
    ∷ []

abbrev lminiz_deflate_m : Functions
lminiz_deflate_m = ("deflate", "lmz_deflator_deflate") ∷ []

abbrev lminiz_inflate_m : Functions
lminiz_inflate_m = ("inflate", "lmz_inflator_inflate") ∷ []

abbrev lminiz_f : Functions
lminiz_f =
    ("new_reader", "lmz_reader_init")
    ∷ ("new_reader_memory", "lmz_reader_init_mem")
    ∷ ("new_writer", "lmz_writer_init")
    ∷ ("inflate", "ltinfl")
    ∷ ("deflate", "ltdefl")
    ∷ ("adler32", "lmz_adler32")
    ∷ ("crc32", "lmz_crc32")
    ∷ ("compress", "lmz_compress")
    ∷ ("uncompress", "lmz_uncompress")
    ∷ ("version", "lmz_version")
    ∷ ("new_deflator", "lmz_deflator_init")
    ∷ ("new_inflator", "lmz_inflator_init")
    ∷ ("last_error", "lmz_last_error")
    ∷ []

-- The fields that `luaL_newlib` sets.
fields : Functions → Map Item
fields [] = []
fields ((name, f) ∷ rest) = (codes name, cfunction f) ∷ fields rest

overwrite : (ℕ → Map Item) → ℕ → Map Item → ℕ → Map Item
overwrite tables t m u = if t == u then m else tables u

push_table : Map Item → State → State
unfolding overwrite
push_table m s = record s {
  tables = overwrite s.tables s.next m;
  next = suc s.next;
  stack = table s.next ∷ s.stack;
}

-- `luaL_newmetatable` pushes the table of that name, which it makes if there is none.
new_metatable : Bytes → State → State
unfolding push_table find assign
new_metatable name s = elim (find name s.registry) [
  | some t ↦ record s { stack = table t ∷ s.stack }
  | none ↦ record (push_table [] s) { registry = assign name s.next s.registry }
]

set_field : Bytes → State → Option State
unfolding overwrite assign
set_field name s = elim s.stack [
  | v ∷ table t ∷ rest ↦ some (record s {
    tables = overwrite s.tables t (assign name v (s.tables t));
    stack = table t ∷ rest;
  })
  | _ ↦ none
]

push_cfunction : String → State → State
push_cfunction f s = record s { stack = cfunction f ∷ s.stack }

pop_one : State → Option State
pop_one s = elim s.stack [ [] ↦ none | v ∷ rest ↦ some (record s { stack = rest }) ]

register_class : Bytes → Functions → String → State → Option State
unfolding new_metatable push_table fields set_field push_cfunction pop_one
register_class name methods gc s =
    set_field (codes "__index") (push_table (fields methods) (new_metatable name s)) >>= λ t.
    set_field (codes "__gc") (push_cfunction gc t) >>= pop_one

-- The state with the library's table on top.
luaopen_miniz : State → Option State
unfolding register_class push_table fields
luaopen_miniz s =
    register_class (codes "miniz_reader") lminiz_read_m "lmz_reader_gc" s
    >>= register_class (codes "miniz_writer") lminiz_write_m "lmz_writer_gc"
    >>= register_class (codes "miniz_deflator") lminiz_deflate_m "lmz_deflator_gc"
    >>= register_class (codes "miniz_inflator") lminiz_inflate_m "lmz_inflator_gc"
    >>= λ t. some (push_table (fields lminiz_f) t)

abbrev opened_with : List Item → State
opened_with stack = record { tables = λ t. []; next = 0; stack = stack; registry = [] }

-- The function that Lua finds in the metatable of a class, and among its methods.
abbrev finalizer : State → Bytes → Option Item
finalizer s name = find name s.registry >>= λ t. find (codes "__gc") (s.tables t)

abbrev method : State → Bytes → Bytes → Option Item
method s name m = find name s.registry >>= λ t. find (codes "__index") (s.tables t) >>= λ i.
    elim i [ table u ↦ find m (s.tables u) | cfunction f ↦ none ]

-- In a state without these classes one value is left on the stack, the table of the library, and
-- each class is collected by its own function; extraction and location are methods of readers
-- alone.
luaopen_miniz_lem :
    (stack : List Item)
    → (s : State) × (luaopen_miniz (opened_with stack) ≡ some s)
      × (s.stack ≡ table 8 ∷ stack)
      × (find (codes "uncompress") (s.tables 8) ≡ some (cfunction "lmz_uncompress"))
      × (finalizer s (codes "miniz_reader") ≡ some (cfunction "lmz_reader_gc"))
      × (finalizer s (codes "miniz_writer") ≡ some (cfunction "lmz_writer_gc"))
      × (finalizer s (codes "miniz_deflator") ≡ some (cfunction "lmz_deflator_gc"))
      × (finalizer s (codes "miniz_inflator") ≡ some (cfunction "lmz_inflator_gc"))
      × (method s (codes "miniz_reader") (codes "extract") ≡ some (cfunction "lmz_reader_extract"))
      × (method s (codes "miniz_writer") (codes "extract") ≡ none)
unfolding luaopen_miniz find key_eq overwrite
luaopen_miniz_lem stack = (_, refl, refl, refl, refl, refl, refl, refl, refl, refl)
