-- ===== src/Tty/Tests.antt =====
-- Runs of the writes.
use yate_datacard.Prelude.{[], codes, refl, ◌≡◌}
use yate_datacard.Samples.{device, env, two_at_a_time}
use yate_datacard.Tty.{at_write_full}
use yate_datacard.Tty.Laws.{Sends, at_write_full-Sends}

at_write_full-Sends_example :
    Sends env [] (codes "ATE0") (
      (at_write_full env (codes "ATE0") device).0.sent,
      (at_write_full env (codes "ATE0") device).1,
    )
at_write_full-Sends_example = at_write_full-Sends env two_at_a_time (codes "ATE0") device

sends_ate0 : (at_write_full env (codes "ATE0") device).0.sent ≡ codes "ATE0\r"
unfolding at_write_full
sends_ate0 = refl
