-- ===== src/Driver/Create.antt =====
-- NewDriver of core/driver/driver.go, whose first line calls it again with its own arguments. The
-- fuel is how deep the calls may go.
use mathlib.Core.Option
use mini_ray.Driver.{Driver}
use mini_ray.Peers.{empty_manager}
use mini_ray.Base.{refl, [], ℕ, Option, none, zero, suc, ◌≡◌}

-- The lines after the call: a manager for the driver, and a table of channels.
abbrev equipped : Driver → Driver
equipped d = record d { manager = empty_manager; type_conns = []; task_notify_chan = [] }

unfoldable pub new_driver : ℕ → Option Driver
new_driver zero = none
new_driver (suc fuel) = Option.map equipped (new_driver fuel)

-- However deep the calls may go, there is no driver.
pub new_driver-none : (fuel : ℕ) → new_driver fuel ≡ none
unfolding new_driver
new_driver-none zero = refl
new_driver-none (suc fuel) = rw (new_driver-none fuel) refl
