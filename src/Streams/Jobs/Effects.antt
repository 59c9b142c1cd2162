-- ===== src/Streams/Jobs/Effects.antt =====
-- What the commands of `publish_generation` and `publish_result` of
-- crates/inference-streams/src/lib.rs leave in the broker.
use inference_data_plane.Prelude.{
  ℕ, ◌+◌, ◌*◌, ◌<◌, ◌≡◌, refl, ap, ◌∙◌, true, false, ◌||◌, none, some, List, [], ◌∷◌, ◌++◌, arith,
  Bool-cases, inl, inr, lookup, ==_self, cons-ne-nil, if◌then◌else◌,
}
use inference_data_plane.Text.{Text, codes, text_eq, text_beq, text_beq_iff}
use inference_data_plane.Streams.{StreamsConfig}
use inference_data_plane.Streams.Keys.{
  hash, stream, key_kind, result_stream, status_key, kind-status, kind-result,
}
use inference_data_plane.Streams.Keyspace.{or_old}
use inference_data_plane.Streams.Wire.{GenerationResult}
use inference_data_plane.Streams.Jobs.{
  JobStore, is_terminal, result_ttl, set_state, set_terminal, result_writes,
}

pub kinds_apart : (k j : Text) → key_kind k ≡ hash → key_kind j ≡ stream → text_eq.beq k j ≡ false
kinds_apart k j h l = ground (arith, text_beq_iff k j)

pub kinds_apart_back :
    (k j : Text) → key_kind k ≡ stream → key_kind j ≡ hash → text_eq.beq k j ≡ false
kinds_apart_back k j h l = ground (arith, text_beq_iff k j)

module _ (S : JobStore) (config : StreamsConfig) where
  open S use {Db, entries, hget, exists, deadline, now, xadd}

  -- What a result that was published under an identifier leaves.
  pub record Recorded (result : GenerationResult) (payload : List ℕ) (id : Text) (db after : Db)
      : Type 0 where
    pub entry :
        entries after (result_stream result.request_id)
        ≡ entries db (result_stream result.request_id) ++ (id, payload) ∷ []
    pub state :
        hget after (status_key result.request_id) (codes "state")
        ≡ some (if is_terminal result.event then codes "completed" else codes "running")
    pub model :
        hget after (status_key result.request_id) (codes "model_id")
        ≡ hget db (status_key result.request_id) (codes "model_id")
    pub attempt :
        hget after (status_key result.request_id) (codes "active_attempt_id")
        ≡ some result.attempt_id
    pub terminal : hget after (status_key result.request_id) (codes "terminal_event_id") ≡ (
        if is_terminal result.event
        then some id
        else hget db (status_key result.request_id) (codes "terminal_event_id"))
    pub status_ends :
        deadline after (status_key result.request_id)
        ≡ some (now db + result_ttl S config result * 1000)
    pub results_end :
        deadline after (result_stream result.request_id)
        ≡ some (now db + result_ttl S config result * 1000)

  module _ (result : GenerationResult) (positive : 0 < result_ttl S config result) where
    abbrev pub st : Text
    st = status_key result.request_id

    abbrev pub rs : Text
    rs = result_stream result.request_id

    abbrev ttl : ℕ
    ttl = result_ttl S config result

    st-apart : text_eq.beq st rs ≡ false
    st-apart = kinds_apart st rs (kind-status result.request_id) (kind-result result.request_id)

    rs-apart : text_eq.beq rs st ≡ false
    rs-apart = ground (arith, st-apart, text_beq_iff st rs, text_beq_iff rs st)

    -- The hashes under any key.
    hget-result_writes :
        (id j f : Text) (db : Db)
        → hget (result_writes S config result id db) j f
          ≡ hget (set_terminal S config result id (set_state S config result db)) j f
    unfolding result_writes
    hget-result_writes id j f db =
        S.hget-expire st j f ttl _ positive ∙ S.hget-expire rs j f ttl _ positive

    hget-set_terminal :
        (id j f : Text) (db : Db)
        → hget (set_terminal S config result id db) j f ≡ (
            if is_terminal result.event
            then if text_eq.beq st j
              then or_old (lookup f ((codes "terminal_event_id", id) ∷ [])) (hget db j f)
              else hget db j f
            else hget db j f)
    unfolding set_terminal
    hget-set_terminal id j f db = elim (Bool-cases (is_terminal result.event)) [
      | inl h ↦ rw h (
          S.hget-hset st j f ((codes "terminal_event_id", id) ∷ []) db
            (kind-status result.request_id))
      | inr h ↦ rw h refl
    ]

    -- The fields of the status.
    field :
        (id f : Text) (db : Db)
        → hget (result_writes S config result id db) st f ≡ (
            if is_terminal result.event
            then or_old
                (lookup f ((codes "terminal_event_id", id) ∷ []))
                (hget (set_state S config result db) st f)
            else hget (set_state S config result db) st f)
    field id f db =
        hget-result_writes id st f db
        ∙ hget-set_terminal id st f (set_state S config result db)
        ∙ rw (==_self st) refl

    -- The fields of the first HSET.
    abbrev state_fields : List (Text × Text)
    state_fields =
        (codes "state", if is_terminal result.event then codes "completed" else codes "running")
        ∷ ((codes "active_attempt_id", result.attempt_id) ∷ [])

    hget-set_state :
        (f : Text) (db : Db)
        → hget (set_state S config result db) st f ≡ or_old (lookup f state_fields) (hget db st f)
    unfolding set_state
    hget-set_state f db =
        S.hget-hset st st f state_fields db (kind-status result.request_id) ∙ rw (==_self st) refl

    pub first_field :
        (id f : Text) (db : Db)
        → lookup f ((codes "terminal_event_id", id) ∷ []) ≡ none
        → hget (result_writes S config result id db) st f
          ≡ or_old (lookup f state_fields) (hget db st f)
    first_field id f db h = field id f db ∙ elim (Bool-cases (is_terminal result.event)) [
      | inl k ↦ rw (k, h) (hget-set_state f db ∙ rw k refl)
      | inr k ↦ rw k (hget-set_state f db ∙ rw k refl)
    ]

    pub terminal_field :
        (id : Text) (db : Db)
        → hget (result_writes S config result id db) st (codes "terminal_event_id")
          ≡ (if is_terminal result.event then some id else hget db st (codes "terminal_event_id"))
    unfolding codes lookup text_beq
    terminal_field id db =
        field id (codes "terminal_event_id") db ∙ elim (Bool-cases (is_terminal result.event)) [
          | inl k ↦ rw k refl
          | inr k ↦ rw k (hget-set_state (codes "terminal_event_id") db)
        ]

    -- The keys and the clock.
    exists-set_state :
        (j : Text) (db : Db)
        → exists (set_state S config result db) j ≡ (text_eq.beq st j || exists db j)
    unfolding set_state
    exists-set_state j db =
        S.exists-hset st j state_fields db (kind-status result.request_id) cons-ne-nil

    exists-set_terminal :
        (id j : Text) (db : Db)
        → exists db st ≡ true
        → exists db j ≡ true
        → exists (set_terminal S config result id db) j ≡ true
    unfolding set_terminal
    exists-set_terminal id j db h k = elim (Bool-cases (is_terminal result.event)) [
      | inl t ↦ rw t (
          S.exists-hset st j ((codes "terminal_event_id", id) ∷ []) db
            (kind-status result.request_id) cons-ne-nil
          ∙ ground (arith, k))
      | inr t ↦ rw t k
    ]

    -- Before the EXPIRE commands.
    abbrev set : Text → Db → Db
    set id db = set_terminal S config result id (set_state S config result db)

    now-set : (id : Text) (db : Db) → now (set id db) ≡ now db
    unfolding set_terminal set_state
    now-set id db = elim (Bool-cases (is_terminal result.event)) [
      | inl t ↦ rw t (
          S.now-hset st ((codes "terminal_event_id", id) ∷ []) _ (kind-status result.request_id)
          ∙ S.now-hset st state_fields db (kind-status result.request_id))
      | inr t ↦ rw t (S.now-hset st state_fields db (kind-status result.request_id))
    ]

    exists-set : (id j : Text) (db : Db) → exists db j ≡ true → exists (set id db) j ≡ true
    exists-set id j db h =
        exists-set_terminal id j (set_state S config result db)
          (exists-set_state st db ∙ rw (==_self st) refl)
          (exists-set_state j db ∙ ground (arith, h))

    pub deadline-status :
        (id : Text) (db : Db)
        → deadline (result_writes S config result id db) st ≡ some (now db + ttl * 1000)
    unfolding result_writes
    deadline-status id db =
        let x = set id db in
        let there : exists (S.expire rs ttl x) st ≡ true =
          S.exists-expire rs st ttl x positive
          ∙ exists-set_terminal id st (set_state S config result db)
              (exists-set_state st db ∙ rw (==_self st) refl)
              (exists-set_state st db ∙ rw (==_self st) refl) in
        S.deadline-expire st st ttl (S.expire rs ttl x) positive
        ∙ rw (==_self st, there, S.now-expire rs ttl x positive, now-set id db) refl

    pub deadline-results :
        (id : Text) (db : Db)
        → exists db rs ≡ true
        → deadline (result_writes S config result id db) rs ≡ some (now db + ttl * 1000)
    unfolding result_writes
    deadline-results id db h =
        let x = set id db in
        S.deadline-expire st rs ttl (S.expire rs ttl x) positive
        ∙ rw st-apart (
            S.deadline-expire rs rs ttl x positive
            ∙ rw (==_self rs, exists-set id rs db h, now-set id db) refl)

    pub entries-result_writes :
        (id j : Text) (db : Db) → entries (result_writes S config result id db) j ≡ entries db j
    unfolding result_writes set_state set_terminal
    entries-result_writes id j db =
        S.entries-expire st j ttl _ positive
        ∙ S.entries-expire rs j ttl (set id db) positive
        ∙ elim (Bool-cases (is_terminal result.event)) [
          | inl t ↦ rw t (
              S.entries-hset st j ((codes "terminal_event_id", id) ∷ []) _
                (kind-status result.request_id)
              ∙ S.entries-hset st j state_fields db (kind-status result.request_id))
          | inr t ↦ rw t (S.entries-hset st j state_fields db (kind-status result.request_id))
        ]

    -- Another key keeps its deadline.
    pub deadline-other :
        (id j : Text) (db : Db)
        → text_eq.beq st j ≡ false
        → text_eq.beq rs j ≡ false
        → deadline (result_writes S config result id db) j ≡ deadline db j
    unfolding result_writes set_state set_terminal
    deadline-other id j db h k =
        S.deadline-expire st j ttl (S.expire rs ttl (set id db)) positive
        ∙ rw h (
            S.deadline-expire rs j ttl (set id db) positive
            ∙ rw k (elim (Bool-cases (is_terminal result.event)) [
              | inl t ↦ rw t (
                  S.deadline-hset st j ((codes "terminal_event_id", id) ∷ []) _
                    (kind-status result.request_id)
                  ∙ S.deadline-hset st j state_fields db (kind-status result.request_id))
              | inr t ↦ rw t (S.deadline-hset st j state_fields db (kind-status result.request_id))
            ]))

    pub hget-other :
        (id j f : Text) (db : Db)
        → text_eq.beq st j ≡ false
        → hget (result_writes S config result id db) j f ≡ hget db j f
    unfolding set_state
    hget-other id j f db h =
        let plain : hget (set_state S config result db) j f ≡ hget db j f =
          S.hget-hset st j f state_fields db (kind-status result.request_id) ∙ rw h refl in
        hget-result_writes id j f db
        ∙ hget-set_terminal id j f (set_state S config result db)
        ∙ elim (Bool-cases (is_terminal result.event)) [
          | inl t ↦ rw (t, h) plain
          | inr t ↦ rw t plain
        ]

    pub exists-result_writes :
        (id j : Text) (db : Db)
        → exists db j ≡ true
        → exists (result_writes S config result id db) j ≡ true
    unfolding result_writes
    exists-result_writes id j db h =
        S.exists-expire st j ttl (S.expire rs ttl (set id db)) positive
        ∙ S.exists-expire rs j ttl (set id db) positive
        ∙ exists-set id j db h

    -- A result whose transaction runs on what its XADD has left.
    pub result_writes-Recorded :
        (payload : List ℕ) (db : Db)
        → let (id, added) = xadd rs payload db in
          Recorded result payload id db (result_writes S config result id added)
    unfolding lookup text_beq codes
    result_writes-Recorded payload db =
        let (id, added) = xadd rs payload db in
        let kind = kind-result result.request_id in
        let same : (f : Text) → hget added st f ≡ hget db st f =
          λ f. S.hget-xadd rs st f payload db kind in
        record {
          entry =
              entries-result_writes id rs added
              ∙ S.entries-xadd rs rs payload db kind
              ∙ rw (==_self rs) refl;
          state = first_field id (codes "state") added refl;
          model = first_field id (codes "model_id") added refl ∙ same (codes "model_id");
          attempt = first_field id (codes "active_attempt_id") added refl;
          terminal =
              terminal_field id added
              ∙ ap (λ old. if is_terminal result.event then some id else old)
                  (same (codes "terminal_event_id"));
          status_ends = deadline-status id added ∙ rw (S.now-xadd rs payload db kind) refl;
          results_end =
              deadline-results id added (S.exists-xadd rs rs payload db kind ∙ rw (==_self rs) refl)
              ∙ rw (S.now-xadd rs payload db kind) refl;
        }
