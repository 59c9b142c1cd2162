-- ===== src/Delivery/Examples.antt =====
-- The answer to a job of crates/inference-engine/src/main.rs at a concrete run, after an attempt of
-- another engine that was given up.
pub mod OneBroker
use inference_data_plane.Prelude.{
  ◌≡◌, refl, ◌⊎◌, ap, inr, List, [], ◌∷◌, ◌++◌, map, ok, All, true, false,
}
use inference_data_plane.Text.{codes, text_beq, text_beq_iff}
use inference_data_plane.Streams.Wire.{ResultEntry, attempt_started}
use inference_data_plane.Frontend.Generate.{collect_loop}
use inference_data_plane.Frontend.Generate.Collect.{reply, last_started, IsOpen}
use inference_data_plane.Engine.{synthetic, open_ai_compatible, acknowledge}
use inference_data_plane.Engine.Results.{result_of}
use inference_data_plane.Engine.Job.{run_job}
use inference_data_plane.Engine.Calls.{Call}
use inference_data_plane.Engine.Reliable.{run_job-acknowledges}
use inference_data_plane.Engine.Examples.{
  toy_json, logging, log, answering, server, apart, config, some_job,
}
use inference_data_plane.Delivery.{entries, IsFresh, LeftAlone, Delivered}
use inference_data_plane.Delivery.Answer.{run_job-Delivered, run_job-answers}

-- Another engine had started.
abbrev before : List ResultEntry
before =
    record { event_id = codes "1-0"; result = result_of some_job (codes "b") attempt_started } ∷ []

fresh : IsFresh (codes "a") before
unfolding last_started codes result_of text_beq
fresh =
    inr (λ h. cc, λ h. let e : false ≡ true = (text_beq_iff (codes "b") (codes "a")).1 h in cc e)

opens : All IsOpen before
unfolding result_of
opens = (tt, tt)

abbrev after_run : List Call
after_run =
    (run_job toy_json logging server (config open_ai_compatible) (codes "e") some_job 50 (codes "a")
      []).1

run_job-Delivered_example :
    (cs : List Call) × (log.calls after_run ≡ log.calls [] ++ cs)
    × (LeftAlone some_job cs
        ⊎ Delivered some_job cs (collect_loop [] [] (map reply (before ++ entries cs) ++ [])))
run_job-Delivered_example =
    run_job-Delivered log toy_json server apart (config open_ai_compatible) (codes "e") some_job 50
      (codes "a") before [] [] after_run opens fresh
      (ap (λ r. (r, after_run))
        (run_job-acknowledges answering some_job toy_json server (config open_ai_compatible)
          (codes "e") 50 (codes "a") [] refl))
