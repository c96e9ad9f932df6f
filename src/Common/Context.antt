-- ===== src/Common/Context.antt =====
-- `anyhow::Error`: a message under contexts, of which `{}` prints the outermost; and the tests on
-- texts that the code makes of what is printed.
use Prim.Native.Char.{code}
use Prim.Native.String.{String}
use Prim.Native.Nat.{ℕ}
use mathlib.Core.Bool.{Bool, true, false, ◌||◌}
use mathlib.Core.List.{List, [], ◌∷◌}
use bitcoin_chain_graph.Common.Tests.{◌==◌, if◌then◌else◌}
use bitcoin_chain_graph.Common.Result.{Result, ok, err}

-- The bytes of an ASCII text.
abbrev pub codes : String → List ℕ
codes String.[] = []
codes (String.◌∷◌ c s) = code c ∷ codes s

pub data AnyError : Type 0 where
  message : List ℕ → AnyError
  context : List ℕ → AnyError → AnyError

abbrev pub display : AnyError → List ℕ
display (message text) = text
display (context text e) = text

abbrev pub with_context : {A : Type 0} → List ℕ → Result AnyError A → Result AnyError A
with_context text (ok a) = ok a
with_context text (err e) = err (context text e)

unfoldable pub starts_with : List ℕ → List ℕ → Bool
starts_with [] text = true
starts_with (c ∷ part) [] = false
starts_with (c ∷ part) (d ∷ text) = if c == d then starts_with part text else false

-- `str::contains`.
unfoldable pub contains_text : List ℕ → List ℕ → Bool
unfolding starts_with
contains_text part [] = starts_with part []
contains_text part (d ∷ text) = starts_with part (d ∷ text) || contains_text part text
