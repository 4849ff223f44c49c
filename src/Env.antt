-- ===== src/Env.antt =====
-- What an operation reads from its surroundings, in the order of the program text: the clock
-- (nanoseconds), whether a call of the database fails, and which entry a `range` loop yields first.
-- `column` gives what a column of type TIMESTAMP WITH TIME ZONE keeps of a time: it holds microseconds,
-- and how the driver rounds is left open.
use realm_api.Common.{ℕ, ◌*◌, Bool}

pub record Env : Type 0 where
  pub clock : ℕ → ℕ
  pub fails : ℕ → Bool
  pub choice : ℕ → ℕ
  pub column : ℕ → ℕ

abbrev pub minute : ℕ
minute = 60 * 1_000_000_000
