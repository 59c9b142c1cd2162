-- ===== src/Streams/Examples.antt =====
-- A broker kept in memory, which shows that the interfaces of Keyspace, LeaseStore and Transport can
-- be filled, and the theorems about crates/inference-streams/src/lib.rs at concrete runs of it.
pub mod Leases
pub mod Replies
pub mod Board
pub mod Retries
use inference_data_plane.Prelude.{
  ℕ, ◌+◌, ◌*◌, ◌≡◌, refl, Bool, false, ◌&&◌, ◌||◌, Option, none, some, [], ◌∷◌, ◌++◌, arith,
  is_some, unwrap_or, lookup, get_elem?, ok, ok-injective, ap, if◌then◌else◌,
}
use inference_data_plane.Prelude.Int.{ℤ, pos, ◌+ℤ◌, ◌-ℤ◌, ◌≤ℤ◌}
use inference_data_plane.Text.{Text, codes, text_eq, text_beq}
use inference_data_plane.Text.Decimal.{show}
use inference_data_plane.Streams.{StreamsConfig, default_config}
use inference_data_plane.Streams.Keys.{
  lease_key, reservation_key, quota_prefix, requests_key, prompt_key, generated_key,
}
use inference_data_plane.Streams.Keyspace.{Keyspace, Datum, is_past, or_old}
use inference_data_plane.Streams.Transport.{Transport}
use inference_data_plane.Streams.Quota.{
  Charge, QuotaLimits, QuotaReservation, charge_of, count, reserve_writes, refund_of, decr_some,
  reserve_script, reconcile_script, cancel_script,
}
use inference_data_plane.Streams.Quota.Accounts.{open_at}
use inference_data_plane.Streams.Quota.Columns.{generations, key_of, limit_of}
use inference_data_plane.Streams.Quota.Limits.{
  System, after_reserve, reserves, reconciles, Reach, here, next, IsStart, Reach-open-le-limit,
}
use inference_data_plane.Streams.Lease.{LeaseStore, acquire_command, renew_script}
use inference_data_plane.Streams.Lease.Exclusion
use inference_data_plane.Streams.Lease.Exclusion.{Claim}
use inference_data_plane.Streams.Lease.Exclusion.Safety.{Reach-exclusive}

pub record Memory : Type 0 where
  numbers : Text → Option ℤ
  fields : Text → Text → Option Datum
  present : Text → Bool
  ends : Text → Option ℕ
  clock : ℕ

module _ {A : Type 0} where
  abbrev pub written_at : Text → A → (Text → A) → Text → A
  written_at k a f j = if text_eq.beq k j then a else f j

  abbrev pub unless_past : (Text → Option ℕ) → ℕ → A → (Text → A) → Text → A
  unless_past ends t gone f j = if is_past (ends j) t then gone else f j

abbrev pub memory : Keyspace
memory = record {
  Db = Memory;
  get = λ db k. db.numbers k;
  hget = λ db k f. db.fields k f;
  exists = λ db k. db.present k;
  deadline = λ db k. db.ends k;
  now = λ db. db.clock;
  incr_by = λ k n db. record db {
    numbers = written_at k (some (unwrap_or (db.numbers k) (pos 0) +ℤ n)) db.numbers;
    present = λ j. text_eq.beq k j || db.present j;
  };
  hset = λ k fs db. record db {
    fields = λ j f. if text_eq.beq k j then or_old (lookup f fs) (db.fields j f) else db.fields j f;
    present = λ j. text_eq.beq k j || db.present j;
  };
  expire = λ k s db. record db {
    ends = λ j. if text_eq.beq k j && db.present k then some (db.clock + s * 1000) else db.ends j;
  };
  elapse = λ n db. record {
    numbers = unless_past db.ends (db.clock + n) none db.numbers;
    fields = λ j f. if is_past (db.ends j) (db.clock + n) then none else db.fields j f;
    present = unless_past db.ends (db.clock + n) false db.present;
    ends = unless_past db.ends (db.clock + n) none db.ends;
    clock = db.clock + n;
  };
  get-incr_by = λ k j n db h. refl;
  hget-incr_by = λ k j f n db h. refl;
  deadline-incr_by = λ k j n db h. refl;
  now-incr_by = λ k n db. refl;
  get-hset = λ k j fs db h. refl;
  hget-hset = λ k j f fs db h. refl;
  deadline-hset = λ k j fs db h. refl;
  now-hset = λ k fs db. refl;
  get-expire = λ k j s db h. refl;
  hget-expire = λ k j f s db h. refl;
  deadline-expire = λ k j s db h. refl;
  exists-incr_by = λ k j n db h. refl;
  exists-hset = λ k j fs db h e. refl;
  exists-expire = λ k j s db h. refl;
  now-expire = λ k s db. refl;
  get-elapse = λ n k db. refl;
  hget-elapse = λ n k f db. refl;
  deadline-elapse = λ n k db. refl;
  now-elapse = λ n db. refl;
}

abbrev pub empty_memory : Memory
empty_memory = record {
  numbers = λ k. none;
  fields = λ k f. none;
  present = λ k. false;
  ends = λ k. none;
  clock = 0;
}

abbrev pub direct : (Db : Type 0) → Transport Db
direct Db = record {
  World = Db;
  db = λ w. w;
  send = λ run w. (ok (run w).0, (run w).1);
  delivered = λ run w w' a h.
      let first : (run w).0 ≡ a = ok-injective (ap (λ x. x.0) h) in
      let second : (run w).1 ≡ w' = ap (λ x. x.1) h in rw (← first, ← second) refl;
}

abbrev two_a_minute : QuotaLimits
two_a_minute = record {
  requests_per_minute = 2;
  prompt_tokens_per_minute = 100;
  generated_tokens_per_minute = 50;
}

abbrev start : System memory two_a_minute
start = record { db = empty_memory; issued = [] }

start-IsStart : IsStart memory two_a_minute start
unfolding count
start-IsStart = record {
  unissued = refl;
  nonnegative = λ k. omega arith;
  capped = λ col prefix. omega arith;
}

abbrev prefix : Text
prefix = quota_prefix (codes "digest") 7

abbrev one_charge : Charge
one_charge = charge_of prefix (codes "a") 10 40

abbrev reserved_once : System memory two_a_minute
reserved_once = after_reserve memory two_a_minute start one_charge

reserved_once-issued : reserved_once.issued ≡ [] ++ one_charge ∷ []
unfolding after_reserve reserve_script count charge_of ◌+ℤ◌
reserved_once-issued = refl

abbrev settled_once : System memory two_a_minute
settled_once = record reserved_once {
  db = (reconcile_script memory one_charge.reservation_at 12 reserved_once.db).1;
}

settled_once-Reach : Reach memory two_a_minute start settled_once
settled_once-Reach =
    next (next here (reserves start (codes "digest") 7 (codes "a") 10 40 tt))
      (reconciles reserved_once [] [] one_charge 12 reserved_once-issued)

Reach-open-le-limit_example :
    (pos (open_at memory settled_once.db (key_of generations prefix) settled_once.issued)
      ≤ℤ count memory settled_once.db (key_of generations prefix))
    × (count memory settled_once.db (key_of generations prefix)
        ≤ℤ pos (limit_of generations two_a_minute))
Reach-open-le-limit_example =
    Reach-open-le-limit memory two_a_minute generations prefix start-IsStart settled_once-Reach

-- The reservation held 40 tokens and 12 were used.
settled_count : count memory settled_once.db (key_of generations prefix) ≡ pos 12
unfolding count after_reserve reserve_script reserve_writes charge_of reconcile_script refund_of
    decr_some codes text_beq ◌+ℤ◌ ◌-ℤ◌ reservation_key quota_prefix generated_key prompt_key
    requests_key lookup show inference_data_plane.Streams.Quota.status
    inference_data_plane.Streams.Quota.reserved inference_data_plane.Streams.Quota.generated
    inference_data_plane.Streams.Quota.requests_field
    inference_data_plane.Streams.Quota.prompt_field
    inference_data_plane.Streams.Quota.generated_field inference_data_plane.Streams.Quota.prompt
settled_count = refl
