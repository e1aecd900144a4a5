-- ===== src/Skew/Program/Delivery.antt =====
-- benches/skew.rs, `main`: what the program delivers, and for which arguments it panics.
use Prim.Native.String.{String}
use hotclock.Prelude.{List}
use hotclock.Machine.{Machine}
use hotclock.Skew.Args.{Args, default_args}
use hotclock.Skew.Args.Spelled.{Setting, effect_all}
use hotclock.Skew.Clocks.{Bench}
use hotclock.Skew.Program.{Surroundings}

-- the arguments that settings make
abbrev pub args_of : Surroundings → List Setting → Args
args_of env ss = effect_all ss (default_args env.parallelism)
