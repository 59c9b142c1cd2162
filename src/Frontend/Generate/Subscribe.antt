-- ===== src/Frontend/Generate/Subscribe.antt =====
-- When `rpc_subscribe_generation` of crates/inference-frontend/src/main.rs answers with a stream.
use inference_data_plane.Prelude.{
  ℕ, ◌≡◌, ◌≢◌, Bool, true, not, Option, List, [], is_empty, filter_option, Result, ok,
}
use inference_data_plane.Text.{Text}
use inference_data_plane.Streams.Wire.{GenerationEvent, SubscribeGenerationRequest}
use inference_data_plane.Frontend.{AppState}
use inference_data_plane.Frontend.Envelope.{Codec}
use inference_data_plane.Frontend.Generate.{Reply, cursor_is_valid}

abbrev pub cursor_of : SubscribeGenerationRequest → Option Text
cursor_of request = filter_option (λ value. not (is_empty value)) request.after_event_id

module _ (P : Codec GenerationEvent) (to_str : List ℕ → Option Text) (state : AppState)
    (status : Text → Result Text Bool)
    (subscribe : Text → Option Text → Result Text (Option (List Reply))) where
  -- What a body must hold for a stream.
  abbrev pub Streams : SubscribeGenerationRequest → Type 0
  Streams request =
      (request.request_id ≢ [])
      × (cursor_is_valid (cursor_of request) ≡ true)
      × (status request.request_id ≡ ok true)
