-- ===== src/Logger.antt =====
-- pkg/logger/logger.go: the level of the logger. The lower case of a character is a parameter.
use Prim.Native.Char.{Char}
use go_payment.Prelude.{String, str_eq, if◌then◌else◌}
use go_payment.Identity.Text.{to_lower}

pub data Level : Type 0 where
  debug info warn error : Level

-- The switch of New.
unfoldable pub level_of : (Char → Char) → String → Level
unfolding to_lower
level_of lower level =
    let l = to_lower lower level in
    if str_eq l "debug"
    then debug
    else if str_eq l "warn"
    then warn
    else if str_eq l "error"
    then error
    else info
