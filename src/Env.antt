-- ===== src/Env.antt =====
-- What the driver calls and this repository does not implement: Yate's `String`, `Regexp` and
-- routing thread, iconv, and the tty below `write`.
use yate_datacard.Prelude.{Bool, Bytes, List, Option, [], length, some, ℕ, ℤ, ◌<◌, ◌≡◌, ◌≢◌, ◌≤◌}

pub record Env : Type 0 where
  -- `String::trimSpaces`
  pub trim_spaces : Bytes → Bytes
  -- `String::startSkip`: the text behind a leading word, or the text itself
  pub start_skip : Bytes → Bytes → Bytes
  -- `String(int)`
  pub string_of_int : ℤ → Bytes
  -- `String::toInteger`
  pub to_integer : Bytes → ℤ
  -- `String::matches(Regexp)`: the texts of the groups 1, 2, ... `matchCount()`
  pub matches : Bytes → Bytes → Option (List Bytes)
  -- `iconv` from one code to another; none where it fails
  pub iconv : Bytes → Bytes → Bytes → Option Bytes
  -- `write` on the data tty: how much of the buffer it took, or an error
  pub write : Bytes → Option ℕ
  -- `Channel::startRouter`, for a call from this number
  pub start_router : Bytes → Bool
  -- the memory behind the buffer of `at_send_sms_text`
  pub behind_buffer : Bytes
  -- `strtol` may set EINVAL where no number stands
  pub sets_einval : Bool

-- The documented behaviour of `write` on a blocking tty: some of the buffer, and no more than it.
pub record WritesSome (env : Env) : Type 0 where
  pub some_taken : (p : Bytes) (n : ℕ) → env.write p ≡ some n → p ≢ [] → 0 < n
  pub within : (p : Bytes) (n : ℕ) → env.write p ≡ some n → n ≤ length p
