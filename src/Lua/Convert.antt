-- ===== src/Lua/Convert.antt =====
-- `LuaEngine::convert_excute_string` of src/lua_engine.rs: a command line that begins with a quote is
-- turned into a call that logs the rest of it. Texts are their bytes.
use tunm.Prelude.{
  ℕ, zero, suc, Option, none, some, List, [], ◌∷◌, ◌++◌, bytes_of, ◌==◌, if◌then◌else◌,
}
use mathlib.Core.Option as Option

-- `str::find` of one ASCII character.
find_char : ℕ → List ℕ → Option ℕ
find_char c [] = none
find_char c (b ∷ rest) = if b == c then some 0 else Option.map suc (find_char c rest)

-- The call around the rest of a line, `format!("LOG.warn(\"%o\", {})", t)`.
abbrev log_call : List ℕ → List ℕ
log_call t = bytes_of "LOG.warn(" ++ 34 ∷ 37 ∷ 111 ∷ 34 ∷ [] ++ bytes_of ", " ++ t ++ bytes_of ")"

unfoldable pub convert_excute_string : List ℕ → List ℕ
unfolding find_char
convert_excute_string [] = []
convert_excute_string (b ∷ rest) = elim (find_char b'\'' (b ∷ rest)) [
  | some zero ↦ log_call rest
  | some (suc n) ↦ b ∷ rest
  | none ↦ b ∷ rest
]
