-- ===== src/Streams/Lease/Outcomes.antt =====
-- What the replies of `acquire_lease`, `renew_lease` and `release_lease` of
-- crates/inference-streams/src/lib.rs say of the database.
use inference_data_plane.Prelude.{
  ℕ, ◌+◌, ◌<◌, ◌≡◌, ◌≢◌, ◌↔◌, refl, ◌∙◌, subst, Bool, true, false, Option, none, some, arith, eqb,
  is_some, inl, inr, Result, ok, err, Option-cases, Bool-cases, ==_self,
}
use inference_data_plane.Text.{Text, text_eq, text_beq_iff}
use inference_data_plane.Streams.{StreamsConfig}
use inference_data_plane.Streams.Keys.{lease_key}
use inference_data_plane.Streams.Transport.{Transport, RedisError}
use inference_data_plane.Streams.Lease.{
  LeaseStore, holds, acquire_command, release_script, renew_script, acquire_read, release_read,
  renew_read, acquire_lease, release_lease, renew_lease,
}

module _ (L : LeaseStore) (config : StreamsConfig) (r o : Text) where
  open L use {Db, get, deadline, now}

  -- The owner has the lease for its whole duration from now on.
  pub record Leased (db after : Db) : Type 0 where
    pub owner : get after (lease_key r) ≡ some o
    pub ends : deadline after (lease_key r) ≡ some (now db + config.lease_duration)

  abbrev pub Acquired : Db → Db → Result RedisError Bool → Type 0
  Acquired db after (ok true) = (get db (lease_key r) ≡ none) × Leased db after
  Acquired db after (ok false) =
      ((holder : Text) × (get db (lease_key r) ≡ some holder)) × (after ≡ db)
  Acquired db after (err e) = Unit {0}

  abbrev pub Renewed : Db → Db → Result RedisError Bool → Type 0
  Renewed db after (ok true) = (get db (lease_key r) ≡ some o) × Leased db after
  Renewed db after (ok false) = (get db (lease_key r) ≢ some o) × (after ≡ db)
  Renewed db after (err e) = Unit {0}

  abbrev pub Released : Db → Db → Result RedisError (Unit {0}) → Type 0
  Released db after (ok n) =
      (get after (lease_key r) ≢ some o) × ((get db (lease_key r) ≢ some o) → after ≡ db)
  Released db after (err e) = Unit {0}

  holds_iff : (v : Option Text) → (holds v o ≡ true) ↔ (v ≡ some o)
  holds_iff none = (λ h. cc, λ h. cc)
  holds_iff (some v) = ground (arith, text_beq_iff v o)

  module _ (positive : 0 < config.lease_duration) where
    acquire_command-Acquired :
        (db : Db)
        → let (reply, after) = acquire_command L config r o db in
          Acquired db after (acquire_read (ok reply))
    unfolding acquire_command acquire_read
    acquire_command-Acquired db = elim (Option-cases (get db (lease_key r))) [
      | inl free ↦ rw free (
        free,
        record {
          owner =
              L.get-set_px (lease_key r) (lease_key r) o config.lease_duration db positive
              ∙ rw (==_self (lease_key r)) refl;
          ends =
              L.deadline-set_px (lease_key r) (lease_key r) o config.lease_duration db positive
              ∙ rw (==_self (lease_key r)) refl;
        },
      )
      | inr (v, there) ↦ rw there ((v, there), refl)
    ]

    renew_script-Renewed :
        (db : Db)
        → let (reply, after) = renew_script L config r o db in
          Renewed db after (renew_read (ok reply))
    unfolding renew_script renew_read
    renew_script-Renewed db =
        let iff = holds_iff (get db (lease_key r)) in
        elim (Bool-cases (holds (get db (lease_key r)) o)) [
          | inl holding ↦
              let there = iff.0 holding in
              rw holding (
                there,
                record {
                  owner =
                      L.get-pexpire (lease_key r) (lease_key r) config.lease_duration db positive
                      ∙ there;
                  ends =
                      L.deadline-pexpire (lease_key r) (lease_key r) o config.lease_duration db
                        positive there
                      ∙ rw (==_self (lease_key r)) refl;
                },
              )
          | inr other ↦ rw other (λ there. cc (other, iff.1 there), refl)
        ]

  release_script-Released :
      (db : Db)
      → let (reply, after) = release_script L config r o db in
        Released db after (release_read (ok reply))
  unfolding release_script release_read
  release_script-Released db =
      let iff = holds_iff (get db (lease_key r)) in
      elim (Bool-cases (holds (get db (lease_key r)) o)) [
        | inl holding ↦ rw holding (
          λ there. cc (there, L.get-del (lease_key r) (lease_key r) db, ==_self (lease_key r)),
          λ ne. absurd (ne (iff.0 holding)),
        )
        | inr other ↦ rw other (λ there. cc (other, iff.1 there), λ ne. refl)
      ]

module _ (L : LeaseStore) (config : StreamsConfig) (T : Transport L.Db) (r o : Text)
    (positive : 0 < config.lease_duration) where
  open T use {World, db, send, delivered}

  sent_acquire :
      (w w' : World) (sent : Result RedisError (Option (Unit {0})))
      → send (acquire_command L config r o) w ≡ (sent, w')
      → Acquired L config r o (db w) (db w') (acquire_read sent)
  unfolding acquire_read
  sent_acquire w w' (err e) h = tt
  sent_acquire w w' (ok reply) h =
      subst (λ (x : Option (Unit {0}) × L.Db). Acquired L config r o (db w) x.1 (ok (is_some x.0)))
        (delivered (acquire_command L config r o) w w' reply h)
        (acquire_command-Acquired L config r o positive (db w))

  sent_renew :
      (w w' : World) (sent : Result RedisError ℕ)
      → send (renew_script L config r o) w ≡ (sent, w')
      → Renewed L config r o (db w) (db w') (renew_read sent)
  unfolding renew_read
  sent_renew w w' (err e) h = tt
  sent_renew w w' (ok reply) h =
      subst (λ (x : ℕ × L.Db). Renewed L config r o (db w) x.1 (ok (eqb x.0 1)))
        (delivered (renew_script L config r o) w w' reply h)
        (renew_script-Renewed L config r o positive (db w))

  sent_release :
      (w w' : World) (sent : Result RedisError ℕ)
      → send (release_script L config r o) w ≡ (sent, w')
      → Released L config r o (db w) (db w') (release_read sent)
  unfolding release_read
  sent_release w w' (err e) h = tt
  sent_release w w' (ok reply) h =
      subst (λ (x : ℕ × L.Db). Released L config r o (db w) x.1 (ok tt))
        (delivered (release_script L config r o) w w' reply h)
        (release_script-Released L config r o (db w))

  -- For a positive duration: a lease is acquired exactly when nobody has it, and then is the
  -- owner's for that duration; it is renewed exactly when the owner has it, and then for that
  -- duration; after a release that returns the owner does not have it. In every other case that
  -- returns, nothing has changed. Of an error of the broker nothing is said.
  pub lease_outcomes :
      (w : World)
      → (let (result, w') = acquire_lease L config T r o w in
          Acquired L config r o (db w) (db w') result)
        × (let (result, w') = renew_lease L config T r o w in
            Renewed L config r o (db w) (db w') result)
        × (let (result, w') = release_lease L config T r o w in
            Released L config r o (db w) (db w') result)
  unfolding acquire_lease renew_lease release_lease
  lease_outcomes w = (sent_acquire w _ _ refl, sent_renew w _ _ refl, sent_release w _ _ refl)
