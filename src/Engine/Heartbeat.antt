-- ===== src/Engine/Heartbeat.antt =====
-- The renewals of the heartbeat of crates/inference-engine/src/main.rs.
use inference_data_plane.Prelude.{
  ℕ, suc, ◌≤◌, ◌≡◌, ◌≢◌, ap, sym, ◌∙◌, arith, Bool, true, false, List, [], ◌∷◌, ◌++◌, map,
  append-nil, append_assoc, length, Bool-cases, inl, inr, Result, ok,
}
use inference_data_plane.Text.{Text}
use inference_data_plane.Engine.{Client}
use inference_data_plane.Engine.Job.{Wake, stop, elapsed, goes_on, heartbeat}
use inference_data_plane.Engine.Calls.{renewed, CallLog}

-- The intervals that pass before the signal to stop, or before the end of what is known.
unfoldable pub intervals : List Wake → ℕ
intervals [] = 0
intervals (stop ∷ wakes) = 0
intervals (elapsed ∷ wakes) = suc (intervals wakes)

-- No reply but the last one says that the lease was lost.
unfoldable pub LostLast : List (Result Text Bool) → Type 0
LostLast [] = Unit {0}
LostLast (r ∷ []) = Unit {0}
LostLast (r ∷ s ∷ rs) = (r ≢ ok false) × LostLast (s ∷ rs)

LostLast-cons :
    (r : Result Text Bool) (rs : List (Result Text Bool))
    → r ≢ ok false
    → LostLast rs
    → LostLast (r ∷ rs)
unfolding LostLast
LostLast-cons r [] h k = tt
LostLast-cons r (s ∷ rs) h k = (h, k)

goes_on-kept : (r : Result Text Bool) → goes_on r ≡ true → r ≢ ok false
unfolding goes_on
goes_on-kept r h e = ground (arith, h, e)

module _ {C : Client} (L : CallLog C) (request_id owner : Text) where
  -- The heartbeat makes no other calls than renewals of its own lease: at most one in each interval
  -- before it is stopped, and none after a reply that the lease was lost.
  pub heartbeat-renewals :
      (wakes : List Wake) (w : C.World)
      → let (returned, v) = heartbeat C request_id owner wakes w in
        (replies : List (Result Text Bool)) × (L.calls v
          ≡ L.calls w ++ map (renewed request_id owner) replies)
        × (length replies ≤ intervals wakes)
        × LostLast replies
  unfolding heartbeat intervals LostLast
  heartbeat-renewals [] w = ([], sym (append-nil (L.calls w)), omega arith, tt)
  heartbeat-renewals (stop ∷ wakes) w = ([], sym (append-nil (L.calls w)), omega arith, tt)
  heartbeat-renewals (elapsed ∷ wakes) w =
      let (reply, v) = C.renew_lease request_id owner w in
      let one = L.calls-renew_lease request_id owner w in
      elim (Bool-cases (goes_on reply)) [
        | inl h ↦
            let (replies, grows, few, last) = heartbeat-renewals wakes v in
            rw (heartbeat, h)
              (
                reply ∷ replies,
                grows
                    ∙ ap (λ l. l ++ map (renewed request_id owner) replies) one
                    ∙ append_assoc (L.calls w) (renewed request_id owner reply ∷ [])
                        (map (renewed request_id owner) replies),
                omega (arith, few),
                LostLast-cons reply replies (goes_on-kept reply h) last,
              )
        | inr h ↦ rw (heartbeat, h) (reply ∷ [], one, omega arith, tt)
      ]
