-- ===== src/ProducerConsumer/Named/Tests.antt =====
-- The texts of a tasklet that was cancelled.
use libnebula.Prelude.{◌≡◌, refl}
use libnebula.ProducerConsumer.{cancelled}
use libnebula.ProducerConsumer.Named.{tasklet, get_result_str, describe}

get_result_str_test :
    (get_result_str (tasklet 3) ≡ "NOT_AVAILABLE")
    × (get_result_str (record (tasklet 3) { result = cancelled }) ≡ "CANCELLED")
unfolding get_result_str tasklet
get_result_str_test = (refl, refl)

describe_test : describe (tasklet 3) ≡ "Tasklet{result_:NOT_AVAILABLE}"
unfolding describe tasklet
describe_test = refl
