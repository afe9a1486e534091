-- ===== src/Scheduler/Cron.antt =====
-- server_scheduler.py: the interval that a cron expression stands for. `int` is read for ASCII
-- digits.
use Prim.Native.Char.{Char, code}
use pgvector_ragindexer.Base.{
  ℕ, zero, suc, ◌+◌, ◌-◌, ◌*◌, String, Bool, true, false, ◌&&◌, Option, none, some, List, ◌∷◌, leb,
  same_char, after_prefix, words, if◌then◌else◌,
}
use pgvector_ragindexer.Quarantine.{ℤ, pos, negsuc}

is_digit : Char → Bool
is_digit c = leb 48 (code c) && leb (code c) 57

-- The digits that are left, after a digit (true) or not; an underscore stands between digits.
read_digits : Bool → ℕ → String → Option ℕ
unfolding is_digit
read_digits ok n String.[] = if ok then some n else none
read_digits ok n (String.◌∷◌ c s) =
    let more = read_digits true (n * 10 + (code c - 48)) s in
    let gap = read_digits false n s in
    if is_digit c then more else if same_char c "_" && ok then gap else none

abbrev pub negative : ℕ → ℤ
negative zero = pos 0
negative (suc n) = negsuc n

abbrev as_pos : Option ℕ → Option ℤ
as_pos none = none
as_pos (some n) = some (pos n)

abbrev as_negative : Option ℕ → Option ℤ
as_negative none = none
as_negative (some n) = some (negative n)

-- int(s); `none` is ValueError
unfoldable pub int_of : String → Option ℤ
unfolding read_digits
int_of String.[] = none
int_of (String.◌∷◌ c s) =
    if same_char c "-"
    then as_negative (read_digits false 0 s)
    else if same_char c "+"
    then as_pos (read_digits false 0 s)
    else as_pos (read_digits false 0 (String.◌∷◌ c s))

abbrev pub times : ℤ → ℕ → ℤ
times (pos n) k = pos (n * k)
times (negsuc n) k = negative (suc n * k)

abbrev pub default_interval : ℤ
default_interval = pos 21600

abbrev pub times_or_default : ℕ → Option ℤ → ℤ
times_or_default k none = default_interval
times_or_default k (some n) = times n k

-- if parts[0].startswith("*/"): …
abbrev pub every_minutes : Option String → ℤ
every_minutes none = default_interval
every_minutes (some n) = times_or_default 60 (int_of n)

-- if parts[1].startswith("*/"): …
abbrev pub every_hours : String → Option String → ℤ
every_hours minute none = every_minutes (after_prefix "*/" minute)
every_hours minute (some n) = times_or_default 3600 (int_of n)

abbrev pub interval_of : List String → ℤ
interval_of (minute ∷ hour ∷ day ∷ month ∷ weekday ∷ rest) =
    every_hours minute (after_prefix "*/" hour)
interval_of ps = default_interval

unfoldable pub cron_to_seconds : String → ℤ
unfolding int_of
cron_to_seconds cron = interval_of (words cron)
