-- ===== src/Streams/Quota/Grants.antt =====
-- The books after `RESERVE_QUOTA_LUA` of crates/inference-streams/src/lib.rs grants a reservation.
use inference_data_plane.Prelude.{
  ◌+◌, ◌<◌, ◌≡◌, refl, sym, ap, ◌∙◌, true, false, some, List, [], ◌∷◌, arith, All, lookup, ==_self,
  if◌then◌else◌,
}
use inference_data_plane.Prelude.Int.{pos, ◌+ℤ◌, int_laws}
use inference_data_plane.Text.{Text, text_eq, text_beq, text_beq_iff, codes}
use inference_data_plane.Streams.Keyspace.{Keyspace, word, number, Datum}
use inference_data_plane.Streams.Quota.{
  Charge, count, reserve_writes, is_word, status, reserved, requests_field, prompt_field,
  generated_field, prompt, generated,
}
use inference_data_plane.Streams.Quota.Effects.{
  IsCharge, charge_at, touches, other_kind, count-reserve_writes, deadline-reserve_writes,
  hget-reserve_writes_ne, now-reserve_writes,
}
use inference_data_plane.Streams.Quota.Settle.{is_open, Stored}
use inference_data_plane.Streams.Quota.Accounts.{
  quota_ttl, quota_ttl_ms, Timed, Sound, open_at, Balanced,
}

-- No reservation of the list has this key: identifiers are fresh.
abbrev pub IsFresh : Text → List Charge → Type 0
IsFresh key = All (λ c. text_eq.beq key c.reservation_at ≡ false)

pub ttl_pos : 0 < quota_ttl
ttl_pos = omega arith

touches_self : (c : Charge) → touches c c.reservation_at ≡ true
unfolding touches
touches_self c = ground (arith, text_beq_iff c.reservation_at c.reservation_at)

touches_ne :
    (c d : Charge)
    → IsCharge c
    → IsCharge d
    → text_eq.beq c.reservation_at d.reservation_at ≡ false
    → touches c d.reservation_at ≡ false
unfolding touches
touches_ne c d v w h = ground (
  arith,
  other_kind c.requests_at d.reservation_at v.requests w.reservation,
  other_kind c.prompt_at d.reservation_at v.prompts w.reservation,
  other_kind c.generated_at d.reservation_at v.generations w.reservation,
)

module _ (K : Keyspace) (c : Charge) (v : IsCharge c) (db : K.Db) where
  open K use {Db, hget, deadline, now}

  granted : Db
  granted = reserve_writes K c quota_ttl db

  charge_fields : List (Text × Datum)
  charge_fields =
      (status, word reserved)
      ∷ (requests_field, word c.requests_at)
      ∷ (prompt_field, word c.prompt_at)
      ∷ (generated_field, word c.generated_at)
      ∷ (prompt, number (pos c.prompt_add))
      ∷ (generated, number (pos c.generated_add))
      ∷ []

  hget-granted :
      (f : Text) (d : Datum)
      → lookup f charge_fields ≡ some d
      → hget granted c.reservation_at f ≡ some d
  unfolding granted reserve_writes charge_fields
  hget-granted f d h = simp (
    K.hget-expire _ _ _ _ _ ttl_pos,
    K.hget-hset _ _ _ _ _ v.reservation,
    ==_self c.reservation_at,
    h,
  )

  granted-Stored : Stored K granted c
  unfolding charge_fields lookup text_beq status reserved requests_field prompt_field
      generated_field prompt generated codes
  granted-Stored = record {
    requests = hget-granted requests_field _ refl;
    prompts = hget-granted prompt_field _ refl;
    generations = hget-granted generated_field _ refl;
    prompt_add = hget-granted prompt _ refl;
    generated_add = hget-granted generated _ refl;
  }

  granted-is_open : is_open K granted c ≡ true
  unfolding is_open charge_fields lookup
  granted-is_open =
      rw (hget-granted status (word reserved) (ground (arith, ==_self status))) (==_self reserved)

  deadline-granted :
      (k : Text)
      → deadline granted k ≡ (if touches c k then some (now db + quota_ttl_ms) else deadline db k)
  unfolding granted
  deadline-granted k = deadline-reserve_writes K c v quota_ttl ttl_pos db k

  now-granted : now granted ≡ now db
  unfolding granted
  now-granted = now-reserve_writes K c v quota_ttl ttl_pos db

  granted-Timed : Timed K granted c
  granted-Timed = record {
    limit = now db + quota_ttl_ms;
    ends = deadline-granted c.reservation_at ∙ rw (touches_self c);
    soon = omega (arith, now-granted);
    until = λ k. now db + quota_ttl_ms;
    outlived = λ k h. (deadline-granted k ∙ rw h, omega arith);
  }

  granted-Sound : Sound K granted c
  granted-Sound = record { charge = v; stored = λ h. granted-Stored; timed = λ h. granted-Timed }

  hget-granted_ne :
      (d : Charge) (f : Text)
      → text_eq.beq c.reservation_at d.reservation_at ≡ false
      → hget granted d.reservation_at f ≡ hget db d.reservation_at f
  unfolding granted
  hget-granted_ne d f h = hget-reserve_writes_ne K c v quota_ttl ttl_pos db d.reservation_at f h

  -- The reservations that were there keep their fields, and do not end later than their counters.
  old_Timed :
      (d : Charge)
      → IsCharge d
      → text_eq.beq c.reservation_at d.reservation_at ≡ false
      → Timed K db d
      → Timed K granted d
  old_Timed d w ne t = record {
    limit = t.limit;
    ends = deadline-granted d.reservation_at ∙ rw (touches_ne c d v w ne) t.ends;
    soon = omega (arith, now-granted, t.soon);
    until = λ k. if touches c k then now db + quota_ttl_ms else t.until k;
    outlived = λ k h. ground (arith, deadline-granted k, t.outlived k h, t.soon);
  }

  old_open :
      (d : Charge)
      → text_eq.beq c.reservation_at d.reservation_at ≡ false
      → is_open K granted d ≡ is_open K db d
  unfolding is_open
  old_open d ne = ap (is_word reserved) (hget-granted_ne d status ne)

  old_Sound :
      (d : Charge)
      → text_eq.beq c.reservation_at d.reservation_at ≡ false
      → Sound K db d
      → Sound K granted d
  old_Sound d ne g = record {
    charge = g.charge;
    stored = λ h.
        let s = g.stored (sym (old_open d ne) ∙ h) in
        record {
          requests = hget-granted_ne d _ ne ∙ s.requests;
          prompts = hget-granted_ne d _ ne ∙ s.prompts;
          generations = hget-granted_ne d _ ne ∙ s.generations;
          prompt_add = hget-granted_ne d _ ne ∙ s.prompt_add;
          generated_add = hget-granted_ne d _ ne ∙ s.generated_add;
        };
    timed = λ h. old_Timed d g.charge ne (g.timed (sym (old_open d ne) ∙ h));
  }

  all_old-Sound :
      (issued : List Charge)
      → IsFresh c.reservation_at issued
      → All (Sound K db) issued
      → All (Sound K granted) issued
  all_old-Sound [] fresh h = tt
  all_old-Sound (d ∷ issued) fresh h = (old_Sound d fresh.0 h.0, all_old-Sound issued fresh.1 h.1)

  open_at-granted :
      (k : Text) (issued : List Charge)
      → IsFresh c.reservation_at issued
      → open_at K granted k issued ≡ open_at K db k issued
  unfolding open_at
  open_at-granted k [] fresh = refl
  open_at-granted k (d ∷ issued) fresh =
      ground (arith, old_open d fresh.0, open_at-granted k issued fresh.1)

  open_at-granted_cons :
      (k : Text) (issued : List Charge)
      → IsFresh c.reservation_at issued
      → open_at K granted k (c ∷ issued) ≡ charge_at c k + open_at K db k issued
  unfolding open_at
  open_at-granted_cons k issued fresh =
      ground (arith, granted-is_open, open_at-granted k issued fresh)

  count-granted : (k : Text) → count K granted k ≡ count K db k +ℤ pos (charge_at c k)
  unfolding granted
  count-granted k = count-reserve_writes K c v quota_ttl ttl_pos db k

  pub granted-Balanced :
      (issued : List Charge)
      → IsFresh c.reservation_at issued
      → Balanced K db issued
      → Balanced K (reserve_writes K c quota_ttl db) (c ∷ issued)
  unfolding granted
  granted-Balanced issued fresh b = record {
    sound = (granted-Sound, all_old-Sound issued fresh b.sound);
    covered = λ k.
        rw (count-granted k, open_at-granted_cons k issued fresh) (omega (int_laws, b.covered k));
  }
