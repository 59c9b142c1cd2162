-- ===== src/Streams/Examples/Leases.antt =====
-- The leases of crates/inference-streams/src/lib.rs at concrete runs of a broker kept in memory.
use inference_data_plane.Prelude.{
  ℕ, ◌+◌, ◌≡◌, refl, Option, none, some, [], ◌∷◌, arith, is_some, get_elem?, ap, if◌then◌else◌,
}
use inference_data_plane.Text.{Text, codes, text_eq, text_beq}
use inference_data_plane.Streams.{default_config}
use inference_data_plane.Streams.Keys.{lease_key}
use inference_data_plane.Streams.Lease.{
  acquire_lease, renew_lease, release_lease, LeaseStore, acquire_command, renew_script,
}
use inference_data_plane.Streams.Lease.Exclusion
use inference_data_plane.Streams.Lease.Exclusion.{Claim}
use inference_data_plane.Streams.Lease.Exclusion.Safety.{Reach-exclusive}
use inference_data_plane.Streams.Lease.Outcomes.{Acquired, Renewed, Released, lease_outcomes}
use inference_data_plane.Streams.Examples.{written_at, unless_past, direct}

pub record LeaseMemory : Type 0 where
  values : Text → Option Text
  ends : Text → Option ℕ
  clock : ℕ

abbrev pub lease_memory : LeaseStore
lease_memory = record {
  Db = LeaseMemory;
  get = λ db k. db.values k;
  deadline = λ db k. db.ends k;
  now = λ db. db.clock;
  set_px = λ k v ms db. record db {
    values = written_at k (some v) db.values;
    ends = written_at k (some (db.clock + ms)) db.ends;
  };
  del =
      λ k db. record db { values = written_at k none db.values; ends = written_at k none db.ends };
  pexpire = λ k ms db. record db {
    ends = λ j.
        if text_eq.beq k j
        then if is_some (db.values k) then some (db.clock + ms) else db.ends j
        else db.ends j;
  };
  elapse = λ n db. record {
    values = unless_past db.ends (db.clock + n) none db.values;
    ends = unless_past db.ends (db.clock + n) none db.ends;
    clock = db.clock + n;
  };
  get-set_px = λ k j v ms db h. refl;
  deadline-set_px = λ k j v ms db h. refl;
  now-set_px = λ k v ms db. refl;
  get-del = λ k j db. refl;
  deadline-del = λ k j db. refl;
  now-del = λ k db. refl;
  get-pexpire = λ k j ms db h. refl;
  deadline-pexpire = λ k j v ms db h there. rw there refl;
  now-pexpire = λ k ms db. refl;
  get-elapse = λ n k db. refl;
  deadline-elapse = λ n k db. refl;
  now-elapse = λ n db. refl;
}

abbrev pub no_leases : LeaseMemory
no_leases = record { values = λ k. none; ends = λ k. none; clock = 0 }

abbrev no_claims : Exclusion.System lease_memory default_config
no_claims = record { db = no_leases; claims = [] }

abbrev acquired : Exclusion.System lease_memory default_config
acquired = Exclusion.after_acquire lease_memory default_config no_claims (codes "r") (codes "w1")

-- A second worker is refused, the first one renews.
abbrev contended : Exclusion.System lease_memory default_config
contended =
    Exclusion.after_renew lease_memory default_config
      (Exclusion.after_acquire lease_memory default_config acquired (codes "r") (codes "w2"))
      (codes "r") (codes "w1")

abbrev claim_until : ℕ → Claim
claim_until t = record { request_id = codes "r"; owner = codes "w1"; until = t }

contended-claims : contended.claims ≡ claim_until 60_000 ∷ claim_until 60_000 ∷ []
unfolding Exclusion.after_acquire Exclusion.after_renew acquire_command renew_script lease_key codes
    text_beq
contended-claims = refl

contended-Reach : Exclusion.Reach lease_memory default_config no_claims contended
contended-Reach =
    Exclusion.Reach.next
      (Exclusion.Reach.next
        (Exclusion.Reach.next Exclusion.Reach.here
          (Exclusion.Step.acquires no_claims (codes "r") (codes "w1")))
        (Exclusion.Step.acquires acquired (codes "r") (codes "w2")))
      (Exclusion.Step.renews
        (Exclusion.after_acquire lease_memory default_config acquired (codes "r") (codes "w2"))
        (codes "r") (codes "w1"))

contended-clock : contended.db.clock ≡ 0
unfolding Exclusion.after_acquire Exclusion.after_renew acquire_command renew_script lease_key codes
    text_beq
contended-clock = refl

Reach-exclusive_example : codes "w1" ≡ codes "w1"
Reach-exclusive_example =
    Reach-exclusive lease_memory default_config (omega arith) no_leases contended 0 1
      (claim_until 60_000) (claim_until 60_000) contended-Reach
      (ap (λ cs. get_elem? cs 0) contended-claims) (ap (λ cs. get_elem? cs 1) contended-claims) refl
      (omega (arith, contended-clock)) (omega (arith, contended-clock))

lease_outcomes_example :
    (let (result, after) =
        acquire_lease lease_memory default_config
          (direct LeaseMemory)
          (codes "r")
          (codes "w1")
          no_leases in
      Acquired lease_memory default_config (codes "r") (codes "w1") no_leases after result)
    × (let (result, after) =
          renew_lease lease_memory default_config
            (direct LeaseMemory)
            (codes "r")
            (codes "w1")
            no_leases in
        Renewed lease_memory default_config (codes "r") (codes "w1") no_leases after result)
    × (let (result, after) =
          release_lease lease_memory default_config
            (direct LeaseMemory)
            (codes "r")
            (codes "w1")
            no_leases in
        Released lease_memory default_config (codes "r") (codes "w1") no_leases after result)
lease_outcomes_example =
    lease_outcomes lease_memory default_config (direct LeaseMemory) (codes "r") (codes "w1")
      (omega arith) no_leases
