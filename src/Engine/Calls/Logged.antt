-- ===== src/Engine/Calls/Logged.antt =====
-- Any client of crates/inference-engine/src/main.rs with a log of its calls beside its world.
use inference_data_plane.Prelude.{refl, List, [], ◌∷◌, ◌++◌, Result}
use inference_data_plane.Prelude.Action.{Action}
use inference_data_plane.Text.{Text}
use inference_data_plane.Engine.{Client}
use inference_data_plane.Engine.Calls.{
  Call, published, asked, acquired, renewed, released, reconciled, cancelled, CallLog,
}
use inference_data_plane.Engine.Reliable.{Answers}

pub record Noted (World : Type 0) : Type 0 where
  pub world : World
  pub calls : List Call

-- A call, and its entry in the log.
abbrev pub note :
    {World A : Type 0} → Action World Text A → (Result Text A → Call) → Action (Noted World) Text A
note m call n =
    let (reply, v) = m n.world in (reply, record { world = v; calls = n.calls ++ call reply ∷ [] })

module _ (C : Client) where
  abbrev pub logged : Client
  logged = record {
    World = Noted C.World;
    publish_result = λ result. note (C.publish_result result) (published result);
    status = λ request_id. note (C.status request_id) (asked request_id);
    acquire_lease =
        λ request_id owner. note (C.acquire_lease request_id owner) (acquired request_id owner);
    renew_lease =
        λ request_id owner. note (C.renew_lease request_id owner) (renewed request_id owner);
    release_lease =
        λ request_id owner. note (C.release_lease request_id owner) (released request_id owner);
    reconcile_quota = λ id n. note (C.reconcile_quota id n) (reconciled id n);
    cancel_quota = λ id. note (C.cancel_quota id) (cancelled id);
    sleep = λ ms n. record n { world = C.sleep ms n.world };
  }

  abbrev pub log_of : CallLog logged
  log_of = record {
    calls = λ n. n.calls;
    calls-publish_result = λ result w. refl;
    calls-status = λ request_id w. refl;
    calls-acquire_lease = λ request_id owner w. refl;
    calls-renew_lease = λ request_id owner w. refl;
    calls-release_lease = λ request_id owner w. refl;
    calls-reconcile_quota = λ id n w. refl;
    calls-cancel_quota = λ id w. refl;
    calls-sleep = λ ms w. refl;
  }

  pub logged-Answers : Answers C → Answers logged
  logged-Answers H = record {
    publishes = λ result h n. H.publishes result h n.world;
    tells_status = λ request_id n. H.tells_status request_id n.world;
    releases = λ request_id owner n. H.releases request_id owner n.world;
    reconciles = λ id k n. H.reconciles id k n.world;
    cancels = λ id n. H.cancels id n.world;
  }
