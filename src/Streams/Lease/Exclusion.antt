-- ===== src/Streams/Lease/Exclusion.antt =====
-- The leases of crates/inference-streams/src/lib.rs as a system: the commands of the workers, in any
-- order, and the passage of time.
pub mod Safety
use inference_data_plane.Prelude.{
  ℕ, ◌+◌, ◌≤◌, ◌<◌, ◌≡◌, refl, sym, ap, ◌∙◌, ◌⊎◌, inl, inr, Bool, true, false, not, ◌&&◌, Option,
  none, some, List, [], ◌∷◌, ◌++◌, arith, All, All-map, filter, is_some, ==_self, leb, ltb, eqb,
  Bool-cases, Option-cases, if◌then◌else◌,
}
use inference_data_plane.Text.{Text, text_eq, text_beq_iff}
use inference_data_plane.Streams.{StreamsConfig}
use inference_data_plane.Streams.Keys.{lease_key, lease_key-injective}
use inference_data_plane.Streams.Keyspace.{is_past}
use inference_data_plane.Streams.Lease.{
  LeaseStore, holds, acquire_command, release_script, renew_script,
}

-- A worker believes that it holds the lease of a request until a time.
pub record Claim : Type 0 where
  pub request_id : Text
  pub owner : Text
  pub until : ℕ

abbrev pub is_claim_of : Text → Text → Claim → Bool
is_claim_of request_id owner c = text_eq.beq c.request_id request_id && text_eq.beq c.owner owner

module _ (L : LeaseStore) (config : StreamsConfig) where
  open L use {Db, get, deadline, now, set_px, del, pexpire, elapse}

  pub record System : Type 0 where
    pub db : Db
    pub claims : List Claim

  claim : System → Text → Text → Claim
  claim s request_id owner = record {
    request_id = request_id;
    owner = owner;
    until = now s.db + config.lease_duration;
  }

  -- A worker that is told `true` claims the lease for its duration from that moment.
  unfoldable pub after_acquire : System → Text → Text → System
  unfolding claim
  after_acquire s r o =
      let (value, db) = acquire_command L config r o s.db in
      record { db = db; claims = if is_some value then claim s r o ∷ s.claims else s.claims }

  unfoldable pub after_renew : System → Text → Text → System
  unfolding claim
  after_renew s r o =
      let (renewed, db) = renew_script L config r o s.db in
      record { db = db; claims = if eqb renewed 1 then claim s r o ∷ s.claims else s.claims }

  -- A worker that releases gives up what it claimed, whatever the reply.
  pub after_release : System → Text → Text → System
  after_release s r o = record {
    db = (release_script L config r o s.db).1;
    claims = filter (λ c. not (is_claim_of r o c)) s.claims;
  }

  pub data Step : System → System → Type 0 where
    acquires : (s : System) (r o : Text) → Step s (after_acquire s r o)
    renews : (s : System) (r o : Text) → Step s (after_renew s r o)
    releases : (s : System) (r o : Text) → Step s (after_release s r o)
    elapses : (s : System) (n : ℕ) → Step s (record s { db = elapse n s.db })

  pub data Reach (s : System) : System → Type 0 where
    here : Reach s s
    next : {t u : System} → Reach s t → Step t u → Reach s u

  -- A claim that has not run out is what the broker says, until it runs out.
  pub record Backed (db : Db) (c : Claim) : Type 0 where
    pub held : now db < c.until → get db (lease_key c.request_id) ≡ some c.owner
    pub end : ℕ
    pub ends : now db < c.until → deadline db (lease_key c.request_id) ≡ some end
    pub lasts : now db < c.until → c.until ≤ end
    pub recent : c.until ≤ now db + config.lease_duration

  module _ (db : Db) (positive : 0 < config.lease_duration) (r o : Text) where
    same_key :
        (c : Claim) → text_eq.beq (lease_key r) (lease_key c.request_id) ≡ true → c.request_id ≡ r
    same_key c h = sym (
        lease_key-injective r c.request_id
          ((text_beq_iff (lease_key r) (lease_key c.request_id)).0 h))

    different :
        (c : Claim)
        → holds (get db (lease_key r)) o ≡ true
        → not (is_claim_of r o c) ≡ true
        → Backed db c
        → now db < c.until
        → text_eq.beq (lease_key r) (lease_key c.request_id) ≡ false
    different c holding other b h = ground (
      arith,
      b.held h,
      same_key c,
      text_beq_iff (lease_key r) (lease_key c.request_id),
      text_beq_iff c.request_id r,
      text_beq_iff c.owner o,
    )

    -- SET over a missing key.
    set_Backed :
        (c : Claim)
        → get db (lease_key r) ≡ none
        → Backed db c
        → Backed (set_px (lease_key r) o config.lease_duration db) c
    set_Backed c free b = record {
      held = λ h. ground (
        arith,
        L.now-set_px (lease_key r) o config.lease_duration db,
        L.get-set_px (lease_key r) (lease_key c.request_id) o config.lease_duration db positive,
        text_beq_iff (lease_key r) (lease_key c.request_id),
        b.held,
      );
      end = b.end;
      ends = λ h. ground (
        arith,
        L.now-set_px (lease_key r) o config.lease_duration db,
        L.deadline-set_px (lease_key r) (lease_key c.request_id) o config.lease_duration db
            positive,
        text_beq_iff (lease_key r) (lease_key c.request_id),
        b.held,
        b.ends,
      );
      lasts = λ h. ground (arith, L.now-set_px (lease_key r) o config.lease_duration db, b.lasts);
      recent = omega (arith, L.now-set_px (lease_key r) o config.lease_duration db, b.recent);
    }

    new_Backed :
        Backed
          (set_px (lease_key r) o config.lease_duration db)
          (record { request_id = r; owner = o; until = now db + config.lease_duration })
    new_Backed = record {
      held = λ h.
          L.get-set_px (lease_key r) (lease_key r) o config.lease_duration db positive
          ∙ rw (==_self (lease_key r));
      end = now db + config.lease_duration;
      ends = λ h.
          L.deadline-set_px (lease_key r) (lease_key r) o config.lease_duration db positive
          ∙ rw (==_self (lease_key r));
      lasts = λ h. omega arith;
      recent = omega (arith, L.now-set_px (lease_key r) o config.lease_duration db);
    }

    -- PEXPIRE of a key that is there.
    renew_Backed :
        (c : Claim) (v : Text)
        → get db (lease_key r) ≡ some v
        → Backed db c
        → Backed (pexpire (lease_key r) config.lease_duration db) c
    renew_Backed c v there b =
        let clock = L.now-pexpire (lease_key r) config.lease_duration db in
        let moved =
          L.deadline-pexpire (lease_key r) (lease_key c.request_id) v config.lease_duration db
            positive there in
        record {
          held = λ h.
              L.get-pexpire (lease_key r) (lease_key c.request_id) config.lease_duration db positive
              ∙ b.held (omega (arith, clock));
          end =
              if text_eq.beq (lease_key r) (lease_key c.request_id)
              then now db + config.lease_duration
              else b.end;
          ends = λ h. ground (arith, clock, moved, b.ends);
          lasts = λ h. ground (arith, clock, b.lasts, b.recent);
          recent = omega (arith, clock, b.recent);
        }

    renewed_Backed :
        (v : Text)
        → get db (lease_key r) ≡ some v
        → holds (some v) o ≡ true
        → Backed
            (pexpire (lease_key r) config.lease_duration db)
            (record { request_id = r; owner = o; until = now db + config.lease_duration })
    renewed_Backed v there same =
        let clock = L.now-pexpire (lease_key r) config.lease_duration db in
        record {
          held = λ h.
              L.get-pexpire (lease_key r) (lease_key r) config.lease_duration db positive
              ∙ there
              ∙ ap some ((text_beq_iff v o).0 same);
          end = now db + config.lease_duration;
          ends = λ h.
              L.deadline-pexpire (lease_key r) (lease_key r) v config.lease_duration db positive
                there
              ∙ rw (==_self (lease_key r));
          lasts = λ h. omega arith;
          recent = omega (arith, clock);
        }

    -- DEL by the holder: only claims of that holder lose their backing.
    release_Backed :
        (c : Claim)
        → holds (get db (lease_key r)) o ≡ true
        → not (is_claim_of r o c) ≡ true
        → Backed db c
        → Backed (del (lease_key r) db) c
    release_Backed c holding other b =
        let clock = L.now-del (lease_key r) db in
        record {
          held = λ h. ground (
            arith,
            clock,
            L.get-del (lease_key r) (lease_key c.request_id) db,
            b.held,
            different c holding other b (omega (arith, clock)),
          );
          end = b.end;
          ends = λ h. ground (
            arith,
            clock,
            L.deadline-del (lease_key r) (lease_key c.request_id) db,
            b.ends,
            different c holding other b (omega (arith, clock)),
          );
          lasts = λ h. b.lasts (omega (arith, clock));
          recent = omega (arith, clock, b.recent);
        }

  elapse_Backed : (db : Db) (n : ℕ) (c : Claim) → Backed db c → Backed (elapse n db) c
  elapse_Backed db n c b =
      let clock = L.now-elapse n db in
      record {
        held = λ h.
            ground
              (arith, clock, L.get-elapse n (lease_key c.request_id) db, b.held, b.ends, b.lasts);
        end = b.end;
        ends = λ h.
            ground (arith, clock, L.deadline-elapse n (lease_key c.request_id) db, b.ends, b.lasts);
        lasts = λ h. b.lasts (omega (arith, clock));
        recent = omega (arith, clock, b.recent);
      }
