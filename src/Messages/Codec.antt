-- ===== src/Messages/Codec.antt =====
-- `EncodeState` and `DecodeState` of internal/message/codec.go, with the fields of
-- internal/message/schema. A hash is the list of its fields, the last written first.
use go_redis_smq.Prelude.{
  ℕ, Bool, true, false, Option, none, some, List, [], ◌∷◌, ◌==◌, ltb, if◌then◌else◌, Result, ok,
  err,
}
use go_redis_smq.Prelude.Text.{Text, text_eq}
use go_redis_smq.Prelude.Decimal.{itoa, atoi}
use go_redis_smq.QueueState.Script.{is_empty}
use go_redis_smq.Messages.State.{
  State, new_message_state, set_id, set_scheduled_cron_fired, set_attempts,
  set_scheduled_repeat_count, set_requeue_count, set_expired, set_effective_scheduled_delay,
  set_scheduled_times, set_scheduled_message_parent_id, set_requeued_message_parent_id,
  set_scheduled_at, set_published_at, set_requeued_at, set_processing_started_at,
  set_acknowledged_at, set_unacknowledged_at, set_dead_lettered_at, set_last_requeued_at,
  set_last_unacknowledged_at, set_last_scheduled_at, set_last_retried_attempt_at,
  set_last_processed_at,
}

-- `Field`
abbrev pub field_id : ℕ
field_id = 0

abbrev pub field_status : ℕ
field_status = 1

abbrev pub field_message : ℕ
field_message = 2

abbrev pub field_scheduled_at : ℕ
field_scheduled_at = 3

abbrev pub field_published_at : ℕ
field_published_at = 4

abbrev pub field_processing_started_at : ℕ
field_processing_started_at = 5

abbrev pub field_dead_lettered_at : ℕ
field_dead_lettered_at = 6

abbrev pub field_acknowledged_at : ℕ
field_acknowledged_at = 7

abbrev pub field_unacknowledged_at : ℕ
field_unacknowledged_at = 8

abbrev pub field_last_unacknowledged_at : ℕ
field_last_unacknowledged_at = 9

abbrev pub field_last_scheduled_at : ℕ
field_last_scheduled_at = 10

abbrev pub field_last_processed_at : ℕ
field_last_processed_at = 11

abbrev pub field_requeued_at : ℕ
field_requeued_at = 12

abbrev pub field_requeue_count : ℕ
field_requeue_count = 13

abbrev pub field_last_requeued_at : ℕ
field_last_requeued_at = 14

abbrev pub field_last_retried_attempt_at : ℕ
field_last_retried_attempt_at = 15

abbrev pub field_scheduled_cron_fired : ℕ
field_scheduled_cron_fired = 16

abbrev pub field_attempts : ℕ
field_attempts = 17

abbrev pub field_scheduled_repeat_count : ℕ
field_scheduled_repeat_count = 18

abbrev pub field_expired : ℕ
field_expired = 19

abbrev pub field_effective_scheduled_delay : ℕ
field_effective_scheduled_delay = 20

abbrev pub field_scheduled_times : ℕ
field_scheduled_times = 21

abbrev pub field_scheduled_message_parent_id : ℕ
field_scheduled_message_parent_id = 22

abbrev pub field_requeued_message_parent_id : ℕ
field_requeued_message_parent_id = 23

abbrev pub Hash : Type 0
Hash = List (ℕ × Text)

unfoldable pub lookup : ℕ → Hash → Option Text
lookup field [] = none
lookup field ((f, v) ∷ h) = if f == field then some v else lookup field h

unfoldable pub bool_to_str : Bool → Text
bool_to_str true = 49 ∷ []
bool_to_str false = 48 ∷ []

-- `setOptionalTS`
unfoldable pub set_optional_ts : ℕ → Option ℕ → Hash → Hash
unfolding itoa
set_optional_ts field none h = h
set_optional_ts field (some ts) h = if ltb 0 ts then (field, itoa ts) ∷ h else h

unfoldable pub set_unless_empty : ℕ → Text → Hash → Hash
set_unless_empty field t h = if is_empty t then h else (field, t) ∷ h

-- What every state has.
unfoldable pub plain_fields : State → Hash
unfolding bool_to_str itoa
plain_fields s =
    (field_id, s.id)
    ∷ (field_attempts, itoa s.attempts)
    ∷ (field_expired, bool_to_str s.expired)
    ∷ (field_scheduled_cron_fired, bool_to_str s.scheduled_cron_fired)
    ∷ (field_scheduled_repeat_count, itoa s.scheduled_repeat_count)
    ∷ (field_scheduled_times, itoa s.scheduled_times)
    ∷ (field_requeue_count, itoa s.requeue_count)
    ∷ (field_effective_scheduled_delay, itoa s.effective_scheduled_delay)
    ∷ []

-- `EncodeState`, of a state that is not nil.
unfoldable pub encode_state : State → Hash
unfolding plain_fields set_optional_ts set_unless_empty
encode_state s = set_unless_empty field_requeued_message_parent_id s.requeued_message_parent_id (
    set_unless_empty field_scheduled_message_parent_id s.scheduled_message_parent_id (
      set_optional_ts field_last_processed_at s.last_processed_at (
        set_optional_ts field_last_retried_attempt_at s.last_retried_attempt_at (
          set_optional_ts field_last_scheduled_at s.last_scheduled_at (
            set_optional_ts field_last_unacknowledged_at s.last_unacknowledged_at (
              set_optional_ts field_last_requeued_at s.last_requeued_at (
                set_optional_ts field_dead_lettered_at s.dead_lettered_at (
                  set_optional_ts field_unacknowledged_at s.unacknowledged_at (
                    set_optional_ts field_acknowledged_at s.acknowledged_at (
                      set_optional_ts field_processing_started_at s.processing_started_at (
                        set_optional_ts field_requeued_at s.requeued_at (
                          set_optional_ts field_published_at s.published_at (
                            set_optional_ts field_scheduled_at s.scheduled_at
                              (plain_fields s))))))))))))))

-- `parseOptionalTS`
unfoldable pub parse_optional_ts : Hash → ℕ → (ℕ → State → State) → State → State
unfolding lookup atoi
parse_optional_ts h field setter s = elim (lookup field h) [
  | none ↦ s
  | some v ↦ elim (atoi v) [ none ↦ s | some ts ↦ if ltb 0 ts then setter ts s else s ]
]

-- A field that is there is set; a number that cannot be read is 0.
unfoldable pub parse_text : Hash → ℕ → (Text → State → State) → State → State
unfolding lookup
parse_text h field setter s = elim (lookup field h) [ none ↦ s | some v ↦ setter v s ]

unfoldable pub parse_number : Hash → ℕ → (ℕ → State → State) → State → State
unfolding lookup atoi
parse_number h field setter s = elim (lookup field h) [
  | none ↦ s
  | some v ↦ setter (elim (atoi v) [ none ↦ 0 | some n ↦ n ]) s
]

unfoldable pub parse_bool : Hash → ℕ → (Bool → State → State) → State → State
unfolding lookup
parse_bool h field setter s = elim (lookup field h) [
  | none ↦ s
  | some v ↦ setter (text_eq v (49 ∷ [])) s
]

-- The numbers and the tests, then the instants, then the parents.
unfoldable pub parse_plain : Hash → State → State
unfolding parse_text parse_number parse_bool set_id set_scheduled_cron_fired set_attempts
    set_scheduled_repeat_count set_requeue_count set_expired set_effective_scheduled_delay
    set_scheduled_times
parse_plain h s = parse_number h field_effective_scheduled_delay set_effective_scheduled_delay (
    parse_number h field_requeue_count set_requeue_count (
      parse_number h field_scheduled_times set_scheduled_times (
        parse_number h field_scheduled_repeat_count set_scheduled_repeat_count (
          parse_bool h field_scheduled_cron_fired set_scheduled_cron_fired (
            parse_bool h field_expired set_expired
              (parse_number h field_attempts set_attempts (parse_text h field_id set_id s)))))))

unfoldable pub parse_instants : Hash → State → State
unfolding parse_optional_ts set_scheduled_at set_published_at set_requeued_at
    set_processing_started_at set_acknowledged_at set_unacknowledged_at set_dead_lettered_at
    set_last_requeued_at set_last_unacknowledged_at set_last_scheduled_at
    set_last_retried_attempt_at set_last_processed_at
parse_instants h s = parse_optional_ts h field_last_processed_at set_last_processed_at (
    parse_optional_ts h field_last_retried_attempt_at set_last_retried_attempt_at (
      parse_optional_ts h field_last_scheduled_at set_last_scheduled_at (
        parse_optional_ts h field_last_unacknowledged_at set_last_unacknowledged_at (
          parse_optional_ts h field_last_requeued_at set_last_requeued_at (
            parse_optional_ts h field_dead_lettered_at set_dead_lettered_at (
              parse_optional_ts h field_unacknowledged_at set_unacknowledged_at (
                parse_optional_ts h field_acknowledged_at set_acknowledged_at (
                  parse_optional_ts h field_processing_started_at set_processing_started_at (
                    parse_optional_ts h field_requeued_at set_requeued_at (
                      parse_optional_ts h field_published_at set_published_at
                        (parse_optional_ts h field_scheduled_at set_scheduled_at s)))))))))))

unfoldable pub parse_parents : Hash → State → State
unfolding parse_text set_scheduled_message_parent_id set_requeued_message_parent_id
parse_parents h s =
    parse_text h field_requeued_message_parent_id set_requeued_message_parent_id
      (parse_text h field_scheduled_message_parent_id set_scheduled_message_parent_id s)

pub data Error : Type 0 where
  empty_hash : Error

-- `DecodeState`; `fresh` is the id that `NewMessageState` draws.
unfoldable pub decode_state : Text → Hash → Result Error State
unfolding new_message_state parse_plain parse_instants parse_parents
decode_state fresh [] = err empty_hash
decode_state fresh (f ∷ h) =
    ok (
      parse_parents (f ∷ h)
        (parse_instants (f ∷ h) (parse_plain (f ∷ h) (new_message_state fresh))))
