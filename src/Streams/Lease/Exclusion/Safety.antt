-- ===== src/Streams/Lease/Exclusion/Safety.antt =====
-- The claims of the workers on the leases of crates/inference-streams/src/lib.rs, over the runs of the
-- system of Exclusion.
use inference_data_plane.Prelude.{
  ℕ, ◌<◌, ◌≡◌, not, some, [], arith, All, All-map, All-filter, All-get, get_elem?, Option-cases,
  Bool-cases, inl, inr,
}
use inference_data_plane.Text.{Text, text_eq}
use inference_data_plane.Streams.{StreamsConfig}
use inference_data_plane.Streams.Keys.{lease_key}
use inference_data_plane.Streams.Lease.{
  LeaseStore, holds, acquire_command, release_script, renew_script,
}
use inference_data_plane.Streams.Lease.Exclusion.{
  Claim, is_claim_of, System, after_acquire, after_renew, after_release, Step, acquires, renews,
  releases, elapses, Reach, here, next, Backed, set_Backed, new_Backed, renew_Backed,
  renewed_Backed, release_Backed, elapse_Backed,
}

module _ (L : LeaseStore) (config : StreamsConfig) (positive : 0 < config.lease_duration) where
  open L use {Db, get}

  IsSafe : System L config → Type 0
  IsSafe s = All (Backed L config s.db) s.claims

  acquire-IsSafe :
      (s : System L config) (r o : Text) → IsSafe s → IsSafe (after_acquire L config s r o)
  unfolding IsSafe after_acquire acquire_command
  acquire-IsSafe s r o h = elim (Option-cases (get s.db (lease_key r))) [
    | inl free ↦ rw free (
      new_Backed L config s.db positive r o,
      All-map (λ c. set_Backed L config s.db positive r o c free) s.claims h,
    )
    | inr (v, there) ↦ rw there h
  ]

  renew-IsSafe : (s : System L config) (r o : Text) → IsSafe s → IsSafe (after_renew L config s r o)
  unfolding IsSafe after_renew renew_script
  renew-IsSafe s r o h = elim (Option-cases (get s.db (lease_key r))) [
    | inl free ↦ rw free h
    | inr (v, there) ↦ elim (Bool-cases (holds (some v) o)) [
      | inl holding ↦
          rw (there, holding)
            (
              renewed_Backed L config s.db positive r o v there holding,
              All-map (λ c. renew_Backed L config s.db positive r o c v there) s.claims h,
            )
      | inr other ↦ rw (there, other) h
    ]
  ]

  release-IsSafe :
      (s : System L config) (r o : Text) → IsSafe s → IsSafe (after_release L config s r o)
  unfolding IsSafe after_release release_script
  release-IsSafe s r o h = elim (Bool-cases (holds (get s.db (lease_key r)) o)) [
    | inl holding ↦ rw holding (
        All-filter (λ c. not (is_claim_of r o c))
          (λ c. release_Backed L config s.db positive r o c holding) s.claims h)
    | inr other ↦ rw other (All-filter (λ c. not (is_claim_of r o c)) (λ c e b. b) s.claims h)
  ]

  Step-IsSafe : {s t : System L config} → Step L config s t → IsSafe s → IsSafe t
  unfolding IsSafe
  Step-IsSafe (acquires s r o) h = acquire-IsSafe s r o h
  Step-IsSafe (renews s r o) h = renew-IsSafe s r o h
  Step-IsSafe (releases s r o) h = release-IsSafe s r o h
  Step-IsSafe (elapses s n) h = All-map (λ c. elapse_Backed L config s.db n c) s.claims h

  Reach-IsSafe : {s t : System L config} → Reach L config s t → IsSafe s → IsSafe t
  Reach-IsSafe here h = h
  Reach-IsSafe (next p q) h = Step-IsSafe q (Reach-IsSafe p h)

  -- From a system without claims, whatever its database and whatever the workers do: two claims
  -- of one request that have not run out are of the same owner.
  pub Reach-exclusive :
      (db : Db) (s : System L config) (i j : ℕ) (c d : Claim)
      → Reach L config (record { db = db; claims = [] }) s
      → get_elem? s.claims i ≡ some c
      → get_elem? s.claims j ≡ some d
      → c.request_id ≡ d.request_id
      → L.now s.db < c.until
      → L.now s.db < d.until
      → c.owner ≡ d.owner
  unfolding IsSafe
  Reach-exclusive db s i j c d path at_i at_j same live_c live_d =
      let safe = Reach-IsSafe path tt in
      let held_c = (All-get (Backed L config s.db) s.claims i safe at_i).held live_c in
      let held_d = (All-get (Backed L config s.db) s.claims j safe at_j).held live_d in
      ground (arith, held_c, held_d, same)
