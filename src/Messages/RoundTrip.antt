-- ===== src/Messages/RoundTrip.antt =====
-- What `DecodeState` makes of what `EncodeState` wrote.
use go_redis_smq.Prelude.{
  ℕ, ◌≡◌, refl, sym, ap, ◌∙◌, Bool, true, false, Option, none, some, [], ◌∷◌, ◌==◌, ltb,
  if◌then◌else◌, ok, arith, inl, inr, Bool-cases,
}
use go_redis_smq.Prelude.Text.{Text, text_eq}
use go_redis_smq.Prelude.Decimal.{itoa, atoi-itoa}
use go_redis_smq.QueueState.Script.{is_empty}
use go_redis_smq.Messages.State.{
  State, new_message_state, set_id, set_scheduled_cron_fired, set_attempts,
  set_scheduled_repeat_count, set_requeue_count, set_expired, set_effective_scheduled_delay,
  set_scheduled_times, set_scheduled_message_parent_id, set_requeued_message_parent_id,
  set_scheduled_at, set_published_at, set_requeued_at, set_processing_started_at,
  set_acknowledged_at, set_unacknowledged_at, set_dead_lettered_at, set_last_requeued_at,
  set_last_unacknowledged_at, set_last_scheduled_at, set_last_retried_attempt_at,
  set_last_processed_at,
}
use go_redis_smq.Messages.Codec.{
  Hash, lookup, bool_to_str, set_optional_ts, set_unless_empty, plain_fields, encode_state,
  parse_optional_ts, parse_text, parse_number, parse_bool, parse_plain, parse_instants,
  parse_parents, decode_state, field_id, field_scheduled_at, field_published_at,
  field_processing_started_at, field_dead_lettered_at, field_acknowledged_at,
  field_unacknowledged_at, field_last_unacknowledged_at, field_last_scheduled_at,
  field_last_processed_at, field_requeued_at, field_requeue_count, field_last_requeued_at,
  field_last_retried_attempt_at, field_scheduled_cron_fired, field_attempts,
  field_scheduled_repeat_count, field_expired, field_effective_scheduled_delay,
  field_scheduled_times, field_scheduled_message_parent_id, field_requeued_message_parent_id,
}

-- The instant 0 is not stored.
abbrev pub nonzero : Option ℕ → Option ℕ
nonzero none = none
nonzero (some ts) = if ltb 0 ts then some ts else none

-- A state without its instants at 0.
abbrev pub settled : State → State
settled s = record s {
  scheduled_at = nonzero s.scheduled_at;
  published_at = nonzero s.published_at;
  requeued_at = nonzero s.requeued_at;
  processing_started_at = nonzero s.processing_started_at;
  acknowledged_at = nonzero s.acknowledged_at;
  unacknowledged_at = nonzero s.unacknowledged_at;
  dead_lettered_at = nonzero s.dead_lettered_at;
  last_requeued_at = nonzero s.last_requeued_at;
  last_unacknowledged_at = nonzero s.last_unacknowledged_at;
  last_scheduled_at = nonzero s.last_scheduled_at;
  last_retried_attempt_at = nonzero s.last_retried_attempt_at;
  last_processed_at = nonzero s.last_processed_at;
}

-- What a field of instants is found to be, where the rest of the hash has `rest`.
stored : Option ℕ → Option Text → Option Text
stored ts rest = elim (nonzero ts) [ none ↦ rest | some n ↦ some (itoa n) ]

lookup-set_optional_ts :
    (key field : ℕ) (ts : Option ℕ) (h : Hash)
    → lookup key (set_optional_ts field ts h)
      ≡ (if field == key then stored ts (lookup key h) else lookup key h)
unfolding lookup set_optional_ts stored
lookup-set_optional_ts key field none h = ground arith
lookup-set_optional_ts key field (some ts) h = ground arith

lookup-set_unless_empty :
    (key field : ℕ) (t : Text) (h : Hash)
    → lookup key (set_unless_empty field t h)
      ≡ (if field == key then (if is_empty t then lookup key h else some t) else lookup key h)
unfolding lookup set_unless_empty
lookup-set_unless_empty key field t h = ground arith

ruleset fields = (lookup-set_optional_ts, lookup-set_unless_empty)

-- A field that is read into a state, whose setter is `put` of a value.
parse_instant :
    (h : Hash) (field : ℕ) (setter : ℕ → State → State) (put : Option ℕ → State → State)
    (ts : Option ℕ) (s : State)
    → lookup field h ≡ stored ts none
    → put none s ≡ s
    → ((n : ℕ) → setter n s ≡ put (some n) s)
    → parse_optional_ts h field setter s ≡ put (nonzero ts) s
unfolding parse_optional_ts stored
parse_instant h field setter put none s l same sets = rw (l, parse_optional_ts) (sym same)
parse_instant h field setter put (some n) s l same sets = elim (Bool-cases (ltb 0 n)) [
  | inl later ↦
      let l' : lookup field h ≡ some (itoa n) = ground (arith, l, later) in
      rw (l', parse_optional_ts, atoi-itoa n, later) (sets n)
  | inr never ↦
      let l' : lookup field h ≡ none = ground (arith, l, never) in
      rw (l', parse_optional_ts, never) (sym same)
]

then_instant :
    (h : Hash) (field : ℕ) (setter : ℕ → State → State) (put : Option ℕ → State → State)
    (ts : Option ℕ) (x s : State)
    → x ≡ s
    → lookup field h ≡ stored ts none
    → put none s ≡ s
    → ((n : ℕ) → setter n s ≡ put (some n) s)
    → parse_optional_ts h field setter x ≡ put (nonzero ts) s
then_instant h field setter put ts x s e l same sets =
    ap (parse_optional_ts h field setter) e ∙ parse_instant h field setter put ts s l same sets

then_number :
    (h : Hash) (field : ℕ) (setter : ℕ → State → State) (n : ℕ) (x s : State)
    → x ≡ s
    → lookup field h ≡ some (itoa n)
    → parse_number h field setter x ≡ setter n s
unfolding parse_number
then_number h field setter n x s e l =
    ap (parse_number h field setter) e ∙ rw (l, parse_number, atoi-itoa n) refl

bool-bool_to_str : (b : Bool) → text_eq (bool_to_str b) (49 ∷ []) ≡ b
unfolding bool_to_str text_eq
bool-bool_to_str true = refl
bool-bool_to_str false = refl

then_bool :
    (h : Hash) (field : ℕ) (setter : Bool → State → State) (b : Bool) (x s : State)
    → x ≡ s
    → lookup field h ≡ some (bool_to_str b)
    → parse_bool h field setter x ≡ setter b s
unfolding parse_bool
then_bool h field setter b x s e l =
    ap (parse_bool h field setter) e ∙ rw (l, parse_bool, bool-bool_to_str b) refl

then_text :
    (h : Hash) (field : ℕ) (setter : Text → State → State) (t : Text) (x s : State)
    → x ≡ s
    → lookup field h ≡ some t
    → parse_text h field setter x ≡ setter t s
unfolding parse_text
then_text h field setter t x s e l = ap (parse_text h field setter) e ∙ rw (l, parse_text) refl

lookup_attempts : (s : State) → lookup field_attempts (encode_state s) ≡ some (itoa s.attempts)
unfolding encode_state plain_fields lookup
lookup_attempts s = simp fields

parse_parent :
    (h : Hash) (field : ℕ) (setter : Text → State → State) (t : Text) (s : State)
    → lookup field h ≡ (if is_empty t then none else some t)
    → setter [] s ≡ s
    → parse_text h field setter s ≡ setter t s
unfolding parse_text text_eq
parse_parent h field setter [] s l same = rw (l, parse_text) (sym same)
parse_parent h field setter (c ∷ t) s l same = rw (l, parse_text) refl

then_parent :
    (h : Hash) (field : ℕ) (setter : Text → State → State) (t : Text) (x s : State)
    → x ≡ s
    → lookup field h ≡ (if is_empty t then none else some t)
    → setter [] s ≡ s
    → parse_text h field setter x ≡ setter t s
then_parent h field setter t x s e l same =
    ap (parse_text h field setter) e ∙ parse_parent h field setter t s l same

-- The state when the fields that are always there are read.
abbrev plain_state : Text → State → State
plain_state fresh s = record (new_message_state fresh) {
  id = s.id;
  attempts = s.attempts;
  expired = s.expired;
  scheduled_cron_fired = s.scheduled_cron_fired;
  scheduled_repeat_count = s.scheduled_repeat_count;
  scheduled_times = s.scheduled_times;
  requeue_count = s.requeue_count;
  effective_scheduled_delay = s.effective_scheduled_delay;
}

plain-encode_state :
    (fresh : Text) (s : State)
    → parse_plain (encode_state s) (new_message_state fresh) ≡ plain_state fresh s
unfolding parse_plain encode_state plain_fields lookup set_id set_attempts set_expired
    set_scheduled_cron_fired set_scheduled_repeat_count set_scheduled_times set_requeue_count
    set_effective_scheduled_delay
plain-encode_state fresh s =
    let h = encode_state s in
    then_number h field_effective_scheduled_delay set_effective_scheduled_delay
      s.effective_scheduled_delay _ _
      (then_number h field_requeue_count set_requeue_count s.requeue_count _ _
        (then_number h field_scheduled_times set_scheduled_times s.scheduled_times _ _
          (then_number h field_scheduled_repeat_count set_scheduled_repeat_count
            s.scheduled_repeat_count _ _
            (then_bool h field_scheduled_cron_fired set_scheduled_cron_fired s.scheduled_cron_fired
              _ _
              (then_bool h field_expired set_expired s.expired _ _
                (then_number h field_attempts set_attempts s.attempts _ _
                  (then_text h field_id set_id s.id _ _ refl (simp fields)) (simp fields))
                (simp fields))
              (simp fields))
            (simp fields))
          (simp fields))
        (simp fields))
      (simp fields)

instants-encode_state :
    (fresh : Text) (s : State)
    → parse_instants (encode_state s) (plain_state fresh s)
      ≡ record (settled s) { scheduled_message_parent_id = []; requeued_message_parent_id = [] }
unfolding parse_instants encode_state plain_fields lookup new_message_state set_scheduled_at
    set_published_at set_requeued_at set_processing_started_at set_acknowledged_at
    set_unacknowledged_at set_dead_lettered_at set_last_requeued_at set_last_unacknowledged_at
    set_last_scheduled_at set_last_retried_attempt_at set_last_processed_at
instants-encode_state fresh s =
    let h = encode_state s in
    then_instant h field_last_processed_at set_last_processed_at
      (λ o s. record s { last_processed_at = o }) s.last_processed_at _ _
      (then_instant h field_last_retried_attempt_at set_last_retried_attempt_at
        (λ o s. record s { last_retried_attempt_at = o }) s.last_retried_attempt_at _ _
        (then_instant h field_last_scheduled_at set_last_scheduled_at
          (λ o s. record s { last_scheduled_at = o }) s.last_scheduled_at _ _
          (then_instant h field_last_unacknowledged_at set_last_unacknowledged_at
            (λ o s. record s { last_unacknowledged_at = o }) s.last_unacknowledged_at _ _
            (then_instant h field_last_requeued_at set_last_requeued_at
              (λ o s. record s { last_requeued_at = o }) s.last_requeued_at _ _
              (then_instant h field_dead_lettered_at set_dead_lettered_at
                (λ o s. record s { dead_lettered_at = o }) s.dead_lettered_at _ _
                (then_instant h field_unacknowledged_at set_unacknowledged_at
                  (λ o s. record s { unacknowledged_at = o }) s.unacknowledged_at _ _
                  (then_instant h field_acknowledged_at set_acknowledged_at
                    (λ o s. record s { acknowledged_at = o }) s.acknowledged_at _ _
                    (then_instant h field_processing_started_at set_processing_started_at
                      (λ o s. record s { processing_started_at = o }) s.processing_started_at _ _
                      (then_instant h field_requeued_at set_requeued_at
                        (λ o s. record s { requeued_at = o }) s.requeued_at _ _
                        (then_instant h field_published_at set_published_at
                          (λ o s. record s { published_at = o }) s.published_at _ _
                          (then_instant h field_scheduled_at set_scheduled_at
                            (λ o s. record s { scheduled_at = o }) s.scheduled_at _ _ refl
                            (simp fields) refl (λ n. refl))
                          (simp fields) refl (λ n. refl))
                        (simp fields) refl (λ n. refl))
                      (simp fields) refl (λ n. refl))
                    (simp fields) refl (λ n. refl))
                  (simp fields) refl (λ n. refl))
                (simp fields) refl (λ n. refl))
              (simp fields) refl (λ n. refl))
            (simp fields) refl (λ n. refl))
          (simp fields) refl (λ n. refl))
        (simp fields) refl (λ n. refl))
      (simp fields) refl (λ n. refl)

parents-encode_state :
    (s : State)
    → parse_parents
        (encode_state s)
        (record (settled s) { scheduled_message_parent_id = []; requeued_message_parent_id = [] })
      ≡ settled s
unfolding parse_parents encode_state plain_fields lookup set_scheduled_message_parent_id
    set_requeued_message_parent_id
parents-encode_state s =
    let h = encode_state s in
    then_parent h field_requeued_message_parent_id set_requeued_message_parent_id
      s.requeued_message_parent_id _ _
      (then_parent h field_scheduled_message_parent_id set_scheduled_message_parent_id
        s.scheduled_message_parent_id _ _ refl (simp fields) refl)
      (simp fields) refl

decode_state-ne-nil :
    (fresh : Text) (h : Hash)
    → (h ≡ [] → ⊥)
    → decode_state fresh h
      ≡ ok (parse_parents h (parse_instants h (parse_plain h (new_message_state fresh))))
unfolding decode_state
decode_state-ne-nil fresh [] ne = absurd (ne refl)
decode_state-ne-nil fresh (f ∷ h) ne = refl

encode_state-ne-nil : (s : State) → encode_state s ≡ [] → ⊥
unfolding lookup
encode_state-ne-nil s e =
    let found : some (itoa s.attempts) ≡ lookup field_attempts [] =
      sym (lookup_attempts s) ∙ ap (lookup field_attempts) e in
    cc

-- Decoding what a state was encoded to gives the state, without those of its instants that are 0: they
-- are not stored. So a state all of whose instants are set to later ones, or not at all, comes back.
pub decode_state-encode_state :
    (fresh : Text) (s : State) → decode_state fresh (encode_state s) ≡ ok (settled s)
unfolding decode_state
decode_state-encode_state fresh s =
    decode_state-ne-nil fresh (encode_state s) (encode_state-ne-nil s)
    ∙ ap ok (
        ap (λ x. parse_parents (encode_state s) (parse_instants (encode_state s) x))
          (plain-encode_state fresh s)
        ∙ ap (parse_parents (encode_state s)) (instants-encode_state fresh s)
        ∙ parents-encode_state s)
