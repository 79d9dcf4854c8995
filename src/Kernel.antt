-- ===== src/Kernel.antt =====
-- The kernel's memory and its control state: struct thread and the static variables of
-- pintos/src/threads/thread.c (State), the statements that read and write them (Monad), and the
-- interrupt level of pintos/src/threads/interrupt.c (Interrupt).
mod State
mod Monad
mod Interrupt
mod Ticks
pub mod Keeps
unfoldable pub use State.*
unfoldable pub use Monad.*
unfoldable pub use Interrupt.*
unfoldable pub use Ticks.*
