-- ===== src/Kernel/Ticks.antt =====
-- The tick counter of pintos/src/devices/timer.c.
use calendarizador.Prelude.Int.{ℤ}
use calendarizador.Kernel.Monad.{K, ◌>>=◌, ◌>>◌, pure, get}
use calendarizador.Kernel.Interrupt.{intr_disable, intr_set_level}

unfoldable pub timer_ticks : K ℤ
unfolding intr_disable intr_set_level
timer_ticks = do old_level ← intr_disable; k ← get; intr_set_level old_level; pure k.ticks
