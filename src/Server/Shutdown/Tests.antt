-- ===== src/Server/Shutdown/Tests.antt =====
-- A server that is stopped while it waits, and while its target runs.
use ctfuzz.Base.{◌≡◌}
use ctfuzz.Server.Shutdown.{
  Process, waiting, initialized, released, goes, faults, handle_stop_sig, steps,
}
use ctfuzz.Server.Shutdown.Laws.{starts, posts, end_from, handle_stop_sig-steps}

handle_stop_sig-steps_example :
    (q : Process) × (handle_stop_sig (released initialized) ≡ goes q)
    × (q.killalls ≡ 1)
    × (steps 3 q ≡ end_from waiting)
    × (handle_stop_sig q ≡ faults)
handle_stop_sig-steps_example = handle_stop_sig-steps (posts starts)
