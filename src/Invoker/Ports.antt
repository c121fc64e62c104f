-- ===== src/Invoker/Ports.antt =====
-- The port numbers of the sessions.
use seuss.Prelude.{ℕ, ◌≤◌, ◌<◌, ◌≡◌, ◌≢◌, arith}
use seuss.Invoker.Defs.{Counters, get_internal_port}

-- Every port lies in the range that is kept for instances, from 49160 to 65534, and so does not meet
-- the port 49159 of the warm-up.
pub get_internal_port_bounds :
    (num_cpus mine : ℕ) (c : Counters)
    → (49160 ≤ (get_internal_port num_cpus mine c).0)
      × ((get_internal_port num_cpus mine c).0 ≤ 65534)
unfolding get_internal_port
get_internal_port_bounds num_cpus mine c = omega arith

-- On a machine with no more cores than ports, two cores whose counters agree never use one port.
get_internal_port_differ :
    (num_cpus m n : ℕ) (c d : Counters)
    → num_cpus ≤ 16375
    → m < num_cpus
    → n < num_cpus
    → m ≢ n
    → c.port ≡ d.port
    → (get_internal_port num_cpus m c).0 ≢ (get_internal_port num_cpus n d).0
unfolding get_internal_port
get_internal_port_differ num_cpus m n c d few hm hn ne same e = omega arith
