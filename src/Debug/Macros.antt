-- ===== src/Debug/Macros.antt =====
-- debug.h: the macros that print for the files asked for; and `__debug_raw_binary` of debug.c.
use mathlib.Core.Option
use projet_s5_prog.Debug.{Debug, is_debugged}
use projet_s5_prog.Common.{
  Bool, List, Option, Outcome, [], false, fault, if◌then◌else◌, ok, some, suc, true, zero, ℕ, ◌++◌,
  ◌>>=◌, ◌∷◌,
}
use projet_s5_prog.Text.{bytes}

-- `is_debugged_first` and `is_debugged_result`, which each file that is compiled with
-- CACHE_DEBUG_FLAG has.
pub record Cache : Type 0 where
  pub first : Bool
  pub result : Bool

abbrev pub fresh : Cache
fresh = record { first = true; result = false }

-- The macro `is_debugged` with CACHE_DEBUG_FLAG; without it the macro is `__is_debugged`.
unfoldable pub cached_is_debugged : List ℕ → Debug → Cache → Option (Bool × Cache)
cached_is_debugged file d c =
    if c.first
    then Option.map (λ r. (r, record { first = false; result = r })) (is_debugged file d)
    else some (c.result, c)

-- `debug_raw`, with the text that the format and its arguments give.
unfoldable pub debug_raw : List ℕ → List ℕ → Debug → Option (List ℕ)
debug_raw file text d = Option.map (λ r. if r then text else []) (is_debugged file d)

-- `debug`, with `line` printed.
unfoldable pub debug : List ℕ → List ℕ → List ℕ → Debug → Option (List ℕ)
unfolding debug_raw
debug file line text d =
    debug_raw file (bytes "[DEBUG] " ++ (file ++ (bytes "," ++ (line ++ (bytes ": " ++ text))))) d

module _ (isprint : ℕ → Bool) where
  -- `__debug_raw_binary`: what it prints of `len` bytes; behind the last byte nothing can be read.
  unfoldable pub debug_raw_binary : List ℕ → ℕ → Outcome (List ℕ)
  debug_raw_binary data_ zero = ok []
  debug_raw_binary [] (suc len) = fault
  debug_raw_binary (c ∷ data_) (suc len) = do
    rest ← debug_raw_binary data_ len
    ok ((if isprint c then c else b'.') ∷ rest)

-- `n` uses of the macro one after the other, in a file.
unfoldable pub asked : ℕ → List ℕ → Debug → Cache → Option (List Bool × Cache)
unfolding cached_is_debugged
asked zero file d c = some ([], c)
asked (suc n) file d c =
    Option.bind (cached_is_debugged file d c)
      λ r. Option.map (λ more. (r.0 ∷ more.0, more.1)) (asked n file d r.1)
