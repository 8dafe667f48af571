-- ===== src/Graphic/Static.antt =====
-- kernel/src/graphic/console.rs: the static console with its lock, the functions of the module, and
-- the macros `kprint` and `kprintln`. The pieces of text that a macro writes are what `core::fmt` makes of its arguments.
pub mod Reach
use maizono_os.Base.{ℕ, Bool, true, false, Option, none, some, List, [], ◌∷◌, if◌then◌else◌}
use maizono_os.Base.Checked.{◌>>=◌}
use maizono_os.Base.Exec.{Exec, done, fail, panic, M}
use maizono_os.Error.{Error, console_error, console_lock_error}
use maizono_os.Graphic.Console
use maizono_os.Graphic.Console.{Terminal}

-- `CONSOLE` with its lock, on the screen.
pub record Static : Type 0 where
  pub terminal : Terminal
  pub locked : Bool

-- A call of a method that may panic, while the lock is held. It is given back at the end.
abbrev pub returning : Static → Option Terminal → Exec Static Error (Unit {0})
returning s (some t) = done tt (record s { terminal = t })
returning s none = panic

-- `console()?.method(..)`
abbrev pub with_console : (Terminal → Option Terminal) → M Static Error (Unit {0})
with_console method s =
    if s.locked then fail (console_error console_lock_error) s else returning s (method s.terminal)

unfoldable pub print : List ℕ → M Static Error (Unit {0})
print text = with_console (Console.print text)

unfoldable pub println : List ℕ → M Static Error (Unit {0})
println text = with_console (Console.println text)

-- `write_fmt`, which writes the pieces of a format one by one.
unfoldable pub write_fmt : List (List ℕ) → Terminal → Option Terminal
write_fmt [] t = some t
write_fmt (piece ∷ rest) t = Console.write_str piece t >>= write_fmt rest

-- `.unwrap()`
abbrev pub unwrapped : Exec Static Error (Unit {0}) → Option Static
unwrapped (done u s) = some s
unwrapped (fail e s) = none
unwrapped panic = none

-- `console().unwrap().write_fmt(..).unwrap()`
unfoldable pub kprint : List (List ℕ) → Static → Option Static
unfolding write_fmt
kprint pieces s = unwrapped (with_console (write_fmt pieces) s)

-- The same, and then `println("").unwrap()`.
unfoldable pub kprintln : List (List ℕ) → Static → Option Static
unfolding kprint println
kprintln pieces s = kprint pieces s >>= λ s. unwrapped (println [] s)
