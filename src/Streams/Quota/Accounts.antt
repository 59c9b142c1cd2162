-- ===== src/Streams/Quota/Accounts.antt =====
-- The books of the quota scripts of crates/inference-streams/src/lib.rs: the open reservations, and the
-- counters that they were charged to.
use inference_data_plane.Prelude.{
  ℕ, ◌+◌, ◌≤◌, ◌≡◌, ap, ◌∙◌, true, false, some, List, [], ◌∷◌, ◌++◌, arith, All, All-map, inl, inr,
  Bool-cases, if◌then◌else◌,
}
use inference_data_plane.Prelude.Int.{pos, pos_part, neg_part, ◌≤ℤ◌, int_laws}
use inference_data_plane.Text.{Text, text_eq, text_beq_iff}
use inference_data_plane.Streams.Keyspace.{Keyspace}
use inference_data_plane.Streams.Quota.{Charge, count, status}
use inference_data_plane.Streams.Quota.Effects.{IsCharge, charge_at, touches}
use inference_data_plane.Streams.Quota.Settle.{is_open, Stored, Settled}

-- EXPIRE of a counter and of a reservation, in seconds and in milliseconds.
abbrev pub quota_ttl : ℕ
quota_ttl = 120

abbrev pub quota_ttl_ms : ℕ
quota_ttl_ms = 120_000

pub untouched : (c : Charge) (k : Text) → touches c k ≡ false → charge_at c k ≡ 0
unfolding touches charge_at
untouched c k h = ground arith

module _ (K : Keyspace) where
  open K use {Db, hget, deadline, now, elapse}

  -- The reservation does not outlive the counters that it was charged to.
  pub record Timed (db : Db) (c : Charge) : Type 0 where
    pub limit : ℕ
    pub ends : deadline db c.reservation_at ≡ some limit
    pub soon : limit ≤ now db + quota_ttl_ms
    pub until : Text → ℕ
    pub outlived :
        (k : Text) → touches c k ≡ true → (deadline db k ≡ some (until k)) × (limit ≤ until k)

  pub record Sound (db : Db) (c : Charge) : Type 0 where
    pub charge : IsCharge c
    pub stored : is_open K db c ≡ true → Stored K db c
    pub timed : is_open K db c ≡ true → Timed db c

  -- What the open reservations have charged to a counter.
  unfoldable pub open_at : Db → Text → List Charge → ℕ
  open_at db k [] = 0
  open_at db k (c ∷ cs) = (if is_open K db c then charge_at c k else 0) + open_at db k cs

  pub record Balanced (db : Db) (issued : List Charge) : Type 0 where
    pub sound : All (Sound db) issued
    pub covered : (k : Text) → pos (open_at db k issued) ≤ℤ count K db k

  abbrev pub Closes : Db → Db → Type 0
  Closes db after = (c : Charge) → is_open K after c ≡ true → is_open K db c ≡ true

  pub open_at-le :
      (db after : Db) (k : Text) (cs : List Charge)
      → Closes db after
      → open_at after k cs ≤ open_at db k cs
  unfolding open_at
  open_at-le db after k [] h = omega arith
  open_at-le db after k (c ∷ cs) h = ground (arith, h c, open_at-le db after k cs h)

  open_at_closed :
      (db after : Db) (k : Text) (before rest : List Charge) (c : Charge)
      → Closes db after
      → is_open K db c ≡ true
      → is_open K after c ≡ false
      → open_at after k (before ++ c ∷ rest) + charge_at c k ≤ open_at db k (before ++ c ∷ rest)
  unfolding open_at
  open_at_closed db after k [] rest c h o x = ground (arith, open_at-le db after k rest h)
  open_at_closed db after k (d ∷ before) rest c h o x =
      ground (arith, h d, open_at_closed db after k before rest c h o x)

  module _ (c : Charge) (db after : Db) (s : Settled K c db after) where
    settled_open :
        (d : Charge)
        → is_open K after d ≡ true
        → (text_eq.beq c.reservation_at d.reservation_at ≡ false) × (is_open K db d ≡ true)
    unfolding is_open
    settled_open d h = elim (Bool-cases (text_eq.beq c.reservation_at d.reservation_at)) [
      | inl same ↦
          absurd (ground (arith, s.closed, (text_beq_iff c.reservation_at d.reservation_at).0 same))
      | inr other ↦ (other, ground (arith, s.others d.reservation_at status other))
    ]

    settled-Closes : Closes db after
    settled-Closes d h = (settled_open d h).1

    settled_Stored :
        (d : Charge)
        → text_eq.beq c.reservation_at d.reservation_at ≡ false
        → Stored K db d
        → Stored K after d
    settled_Stored d ne t = record {
      requests = s.others _ _ ne ∙ t.requests;
      prompts = s.others _ _ ne ∙ t.prompts;
      generations = s.others _ _ ne ∙ t.generations;
      prompt_add = s.others _ _ ne ∙ t.prompt_add;
      generated_add = s.others _ _ ne ∙ t.generated_add;
    }

    settled_Timed : (d : Charge) → Timed db d → Timed after d
    settled_Timed d t = record {
      limit = t.limit;
      ends = s.deadlines _ ∙ t.ends;
      soon = omega (arith, t.soon, s.clock);
      until = t.until;
      outlived = λ k h. (s.deadlines k ∙ (t.outlived k h).0, (t.outlived k h).1);
    }

    settled_Sound : (d : Charge) → Sound db d → Sound after d
    settled_Sound d g = record {
      charge = g.charge;
      stored = λ h. let (ne, o) = settled_open d h in settled_Stored d ne (g.stored o);
      timed = λ h. settled_Timed d (g.timed (settled_open d h).1);
    }

    pub settled-Balanced :
        (before rest : List Charge)
        → is_open K db c ≡ true
        → Balanced db (before ++ c ∷ rest)
        → Balanced after (before ++ c ∷ rest)
    settled-Balanced before rest o b = record {
      sound = All-map settled_Sound (before ++ c ∷ rest) b.sound;
      covered = λ k. omega (
        int_laws,
        open_at_closed db after k before rest c settled-Closes o s.closed,
        ap pos_part (s.counted k),
        ap neg_part (s.counted k),
        s.paid_le k,
        b.covered k,
      );
    }
