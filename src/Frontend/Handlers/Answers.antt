-- ===== src/Frontend/Handlers/Answers.antt =====
-- When the handlers of crates/inference-frontend/src/main.rs answer with success.
use inference_data_plane.Prelude.{
  ℕ, unwrap_or, ◌≡◌, ◌≢◌, ◌↔◌, refl, ap, ◌∙◌, Option, none, some, List, [], ok-injective, Result,
  ok, err,
}
use inference_data_plane.Text.{Text}
use inference_data_plane.Streams.Wire.{GenerateRequest, GenerateResponse, GenerationEvent}
use inference_data_plane.Frontend.{
  AppState, Response, success, bad_gateway, HeaderMap, error_response,
}
use inference_data_plane.Frontend.Envelope.{Codec}
use inference_data_plane.Frontend.Admit.{Services, Admission}
use inference_data_plane.Frontend.Generate.{
  Reply, Collected, collect_loop, collected_response, collect_generation, stream_generation,
}
use inference_data_plane.Frontend.Handlers.{
  admitted, collected, rpc_generate, streamed, rpc_stream_generate,
}
use inference_data_plane.Frontend.Handlers.Refusals.{
  Refuses, LoopRefuses, collect_loop-Refuses, admitted-Refuses,
}

bad_gateway-ne-success : bad_gateway ≢ success
bad_gateway-ne-success h = cc

module _ (S : Services) (state : AppState) (headers : HeaderMap) (unix_ms : ℕ) (request_id : Text)
    (encode_response : GenerateResponse → List ℕ) (P : Codec GenerationEvent)
    (subscribe : Text → S.World → Result Text (Option (List Reply))) where
  open S use {World}

  abbrev pub Succeeds : Option Response → Type 0
  Succeeds answer = (response : Response) × (answer ≡ some response) × (response.status ≡ success)

  -- The request was admitted, its results could be read, and they end in a completion.
  abbrev pub Completed : Result Response Admission × World → Type 0
  Completed s =
      (a : Admission) × (replies : List Reply) × (c : Collected) × (s.0 ≡ ok a)
      × (subscribe a.request_id s.1 ≡ ok (some replies))
      × (collect_loop [] [] replies ≡ some (ok c))

  response-success :
      (a : Admission) (o : Option (Result Response Collected))
      → LoopRefuses o
      → Succeeds (collected_response encode_response state a o)
      → (c : Collected) × (o ≡ some (ok c))
  unfolding collected_response
  response-success a none h (response, e, k) = cc
  response-success a (some (err x)) h (response, e, k) =
      absurd (h (ap (λ o. (unwrap_or o response).status) e ∙ k))
  response-success a (some (ok c)) h s = (c, refl)

  collect-success :
      (a : Admission) (r : Result Text (Option (List Reply)))
      → Succeeds (collect_generation encode_response state r a)
      → (replies : List Reply) × (c : Collected) × (r ≡ ok (some replies))
        × (collect_loop [] [] replies ≡ some (ok c))
  unfolding collect_generation error_response
  collect-success a (err x) (response, e, k) =
      absurd (bad_gateway-ne-success (ap (λ o. (unwrap_or o response).status) e ∙ k))
  collect-success a (ok none) (response, e, k) =
      absurd (bad_gateway-ne-success (ap (λ o. (unwrap_or o response).status) e ∙ k))
  collect-success a (ok (some replies)) s =
      let (c, h) =
        response-success a (collect_loop [] [] replies) (collect_loop-Refuses replies [] []) s in
      (replies, c, refl, h)

  collected-success :
      (s : Result Response Admission × World)
      → Refuses s.0
      → Succeeds (collected S state headers unix_ms request_id encode_response subscribe s).0
      → Completed s
  unfolding collected
  collected-success (err x, w) h (response, e, k) =
      absurd (h (ap (λ o. (unwrap_or o response).status) e ∙ k))
  collected-success (ok a, w) h s =
      let (replies, c, k, l) = collect-success a (subscribe a.request_id w) s in
      (a, replies, c, refl, k, l)

  success-collected :
      (s : Result Response Admission × World)
      → Completed s
      → Succeeds (collected S state headers unix_ms request_id encode_response subscribe s).0
  unfolding collected collect_generation collected_response
  success-collected (err x, w) (a, replies, c, h, k, l) = cc
  success-collected (ok b, w) (a, replies, c, h, k, l) =
      let same : b ≡ a = ok-injective h in
      let read : subscribe b.request_id w ≡ ok (some replies) = rw same k in
      rw (read, l) (_, refl, refl)

  rpc_generate-success :
      (decoded : Result Text GenerateRequest) (w : World)
      → Succeeds
          (rpc_generate S state headers unix_ms request_id encode_response subscribe decoded w).0
        ↔ Completed (admitted S state headers unix_ms request_id decoded w)
  unfolding rpc_generate
  rpc_generate-success decoded w =
      let s = admitted S state headers unix_ms request_id decoded w in
      (
        collected-success s (admitted-Refuses S state headers unix_ms request_id decoded w),
        success-collected s,
      )

  streamed-success :
      (s : Result Response Admission × World)
      → Refuses s.0
      → ((streamed S state headers unix_ms request_id P subscribe s).0.status ≡ success)
        ↔ ((a : Admission) × (s.0 ≡ ok a))
  unfolding streamed stream_generation
  streamed-success (ok a, w) h = (λ k. (a, refl), λ k. refl)
  streamed-success (err x, w) h = (λ k. absurd (h k), λ k. cc (k.1))

  -- The unary call answers with success exactly when the request is admitted, the results of its job
  -- can be read, and they lead to a completion; the streaming call exactly when the request is
  -- admitted.
  pub handlers-success_iff :
      (decoded : Result Text GenerateRequest) (w : World)
      → (Succeeds
            (rpc_generate S state headers unix_ms request_id encode_response subscribe decoded w).0
          ↔ Completed (admitted S state headers unix_ms request_id decoded w))
        × (((rpc_stream_generate S state headers unix_ms request_id P subscribe decoded w).0.status
              ≡ success)
            ↔ ((a : Admission) × ((admitted S state headers unix_ms request_id decoded w).0
                  ≡ ok a)))
  unfolding rpc_stream_generate
  handlers-success_iff decoded w = (
    rpc_generate-success decoded w,
    streamed-success (admitted S state headers unix_ms request_id decoded w)
        (admitted-Refuses S state headers unix_ms request_id decoded w),
  )
