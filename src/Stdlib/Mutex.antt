-- ===== src/Stdlib/Mutex.antt =====
-- The spin lock of src/lib/stdlib.c (`mutex_get`, `mutex_release`). A `Mutex` is a `bool`.
use c4os.Common.{Bool, true, false, Option, none, some, if◌then◌else◌}

-- The result and the new value of the mutex. `xchg` leaves `true` in the mutex and the old value
-- in `old_value`. Once the lock is found taken, every later round finds the `true` that the round
-- before left, so with `wait` the loop does not end unless another party releases it: `none`.
unfoldable pub mutex_get : Bool → Bool → Option (Bool × Bool)
mutex_get false wait = some (true, true)
mutex_get true wait = if wait then none else some (false, true)

unfoldable pub mutex_release : Bool → Bool
mutex_release mutex = false
