-- ===== src/Console.antt =====
-- The output on the terminal: `printf` and `g_print` are calls of a library, so a function that
-- prints gives the list of its calls, each with its format and its arguments.
use Prim.Native.String.{String}
use c_pug.Common.{ℕ, List, Bytes, codes}
use c_pug.Glib.{ℤ}

-- The argument of a `%s`, of a `%u` or of a `%d`.
pub data Arg : Type 0 where
  text : Bytes → Arg
  number : ℕ → Arg
  int : ℤ → Arg

-- The format is the text of the literal, by code points.
pub record Call : Type 0 where
  pub format : Bytes
  pub args : List Arg

abbrev pub printf : String → List Arg → Call
printf format args = record { format = codes format; args = args }
