-- ===== src/Kernel/Interrupt.antt =====
-- pintos/src/threads/interrupt.c: the interrupt flag and the external-interrupt context.
use calendarizador.Prelude.{Bool, true, false, not}
use calendarizador.Kernel.State.{IntrLevel, intr_on, intr_off}
use calendarizador.Kernel.Monad.{K, ◌>>=◌, ◌>>◌, pure, get, modify, assert}

abbrev pub is_off : IntrLevel → Bool
is_off intr_off = true
is_off intr_on = false

unfoldable pub intr_get_level : K IntrLevel
intr_get_level = do k ← get; pure k.level

unfoldable pub intr_context : K Bool
intr_context = do k ← get; pure k.in_external_intr

unfoldable pub intr_enable : K IntrLevel
unfolding intr_get_level intr_context
intr_enable = do
  old_level ← intr_get_level
  external ← intr_context
  assert (not external)
  modify (λ k. record k { level = intr_on })
  pure old_level

unfoldable pub intr_disable : K IntrLevel
unfolding intr_get_level
intr_disable = do
  old_level ← intr_get_level
  modify (λ k. record k { level = intr_off })
  pure old_level

unfoldable pub intr_set_level : IntrLevel → K IntrLevel
unfolding intr_enable intr_disable
intr_set_level intr_on = intr_enable
intr_set_level intr_off = intr_disable

unfoldable pub intr_yield_on_return : K (Unit {0})
unfolding intr_context
intr_yield_on_return = do
  external ← intr_context
  assert external
  modify (λ k. record k { yield_on_return = true })
