-- ===== src/Examples/Counters.antt =====
-- product/src/metrics.rs: a worker that finishes with unknown usage.
use deskquota.Common.{none}
use deskquota.Metrics.{deadline, new, worker_finished, worker_started}
use deskquota.Metrics.Counted.{Balanced, Recorded-Balanced, at_start, finished, started, then_step}

Recorded-Balanced_example : Balanced (worker_finished (worker_started new) deadline none)
Recorded-Balanced_example =
    Recorded-Balanced (worker_finished (worker_started new) deadline none)
      (then_step (then_step at_start started) (finished deadline none))
