-- ===== src/V5/TopicTable.antt =====
-- `TopicTable` of ddht/v5/topic_table.py. Times are the floats of a clock; a record is a parameter, with
-- its node id. `topic_queues` is the list of its items in the order of their insertion, and a queue has its
-- newest ad first.
pub mod Register
pub mod Waiting
pub mod Due
use ddht.Prelude.{
  ℕ, ◌+◌, ◌-◌, ◌≡◌, max, min, zero, suc, Bool, true, false, not, ◌&&◌, Option, none, some, List, [],
  ◌∷◌, ◌++◌, map, ltb, leb, nat_beq, ◌==◌, if◌then◌else◌, length, take, elem, get_last?, drop_last,
}
use ddht.Prelude.Bytes.{Bytes, bytes_eq}
use ddht.Prelude.Outcomes.{Result, ok, raise}

-- a ValueError of `register` or of `min`, an IndexError of a queue's last element
pub data Error : Type 0 where
  must_wait already_present no_queues index_error : Error

-- The floats, without nan and the infinities, with `<`, `==`, `+` and `-`. Nothing is assumed of the
-- rounding but the sign of a difference, which gradual underflow keeps.
pub record Clock : Type 1 where
  pub Time : Type 0
  pub zero_time : Time
  pub before : Time → Time → Bool
  pub same : Time → Time → Bool
  pub add : Time → Time → Time
  pub subtract : Time → Time → Time
  pub same_refl : (a : Time) → same a a ≡ true
  pub before_asym : (a b : Time) → before a b ≡ true → before b a ≡ false
  pub before-subtract : (a b : Time) → before zero_time (subtract a b) ≡ before b a

module _ (clock : Clock) (Enr : Type 0) (node_id : Enr → Bytes) where
  open clock use {Time, zero_time, before, same, add, subtract}

  pub record Ad : Type 0 where
    pub enr : Enr
    pub registration_time : Time

  abbrev pub Queues : Type 0
  Queues = List (Bytes × List Ad)

  pub record TopicTable : Type 0 where
    pub max_queue_size : ℕ
    pub max_total_size : ℕ
    pub target_ad_lifetime : Time
    pub topic_queues : Queues
    pub total_size : ℕ

  unfoldable pub init : ℕ → ℕ → Time → TopicTable
  init max_queue_size max_total_size target_ad_lifetime = record {
    max_queue_size = max_queue_size;
    max_total_size = max_total_size;
    target_ad_lifetime = target_ad_lifetime;
    topic_queues = [];
    total_size = 0;
  }

  -- `topic_queues[topic]`, which is empty for a new topic, and the assignment of a queue
  unfoldable pub queue_of : Queues → Bytes → List Ad
  queue_of [] topic = []
  queue_of ((t, queue) ∷ queues) topic = if t == topic then queue else queue_of queues topic

  unfoldable pub put_queue : Queues → Bytes → List Ad → Queues
  put_queue [] topic queue = (topic, queue) ∷ []
  put_queue ((t, old) ∷ queues) topic queue =
      if t == topic then (t, queue) ∷ queues else (t, old) ∷ put_queue queues topic queue

  -- the default dictionary keeps the queue that it makes for a new topic
  unfoldable pub touch : TopicTable → Bytes → TopicTable
  touch t topic = record t {
    topic_queues = put_queue t.topic_queues topic (queue_of t.topic_queues topic);
  }

  unfoldable pub is_full : TopicTable → Bool
  is_full t = leb t.max_total_size t.total_size

  unfoldable pub is_queue_full : TopicTable → Bytes → Bool
  is_queue_full t topic = leb t.max_queue_size (length (queue_of t.topic_queues topic))

  unfoldable pub get_enrs_for_topic : TopicTable → Bytes → List Enr
  get_enrs_for_topic t topic = map (λ ad. ad.enr) (queue_of t.topic_queues topic)

  -- the registration time of the oldest ad of a queue
  abbrev pub oldest_in : List Ad → Option Time
  oldest_in queue = elim (get_last? queue) [ none ↦ none | some ad ↦ some ad.registration_time ]

  -- `min` and `max` of two times, which return the first where they are the same
  abbrev pub min_time : Time → Time → Time
  min_time a b = if before b a then b else a

  abbrev pub max_time : Time → Time → Time
  max_time a b = if before a b then b else a

  -- the earlier of two times, where there are both
  abbrev pub earlier : Option Time → Option Time → Option Time
  earlier none other = other
  earlier (some a) none = some a
  earlier (some a) (some b) = some (min_time a b)

  unfoldable pub oldest_time : Queues → Option Time
  oldest_time [] = none
  oldest_time ((t, queue) ∷ queues) = earlier (oldest_in queue) (oldest_time queues)

  -- the local variable of `get_wait_time`, where the queue or the table is full
  unfoldable pub next_registration_time : TopicTable → Bytes → Result Error (Option Time)
  next_registration_time t topic =
      let in_queue = oldest_in (queue_of t.topic_queues topic) in
      let in_table = oldest_time t.topic_queues in
      if not (is_queue_full t topic) && not (is_full t)
      then ok none
      else if is_queue_full t topic
      then elim in_queue [
        | none ↦ raise index_error
        | some queue_time ↦
            if is_full t
            then elim in_table [
              | none ↦ raise no_queues
              | some table_time ↦
                  ok (some (add (max_time queue_time table_time) t.target_ad_lifetime))
            ]
            else ok (some (add queue_time t.target_ad_lifetime))
      ]
      else elim in_table [
        | none ↦ raise no_queues
        | some table_time ↦ ok (some (add table_time t.target_ad_lifetime))
      ]

  -- `max(next_registration_time - current_time, 0)`, or 0 where neither is full
  abbrev pub time_left : Option Time → Time → Time
  time_left none current_time = zero_time
  time_left (some next) current_time = max_time (subtract next current_time) zero_time

  unfoldable pub get_wait_time : TopicTable → Bytes → Time → Result Error Time
  get_wait_time t topic current_time = elim (next_registration_time t topic) [
    | raise e ↦ raise e
    | ok next ↦ ok (time_left next current_time)
  ]

  -- the first queue whose oldest ad has a time loses that ad
  unfoldable pub pop_oldest : Time → Queues → Queues
  pop_oldest time [] = []
  pop_oldest time ((t, queue) ∷ queues) =
      let rest = (t, queue) ∷ pop_oldest time queues in
      elim (oldest_in queue) [
        | none ↦ rest
        | some oldest ↦ if same oldest time then (t, drop_last queue) ∷ queues else rest
      ]

  -- what is done where the table is full
  unfoldable pub make_room : TopicTable → Result Error TopicTable
  make_room t =
      if is_full t
      then elim (oldest_time t.topic_queues) [
        | none ↦ raise no_queues
        | some time ↦ ok (record t {
          topic_queues = pop_oldest time t.topic_queues;
          total_size = t.total_size - 1;
        })
      ]
      else ok t

  -- `deque.appendleft` with a `maxlen`
  abbrev pub append_left : ℕ → Ad → List Ad → List Ad
  append_left max_length ad queue = take max_length (ad ∷ queue)

  -- the last three lines of `register`
  unfoldable pub add_ad : TopicTable → Bytes → Ad → TopicTable
  add_ad t topic ad =
      let queue = queue_of t.topic_queues topic in
      let longer = append_left t.max_queue_size ad queue in
      record t {
        topic_queues = put_queue t.topic_queues topic longer;
        total_size = t.total_size - length queue + length longer;
      }

  -- the table after the call, and what it returns
  unfoldable pub register : TopicTable → Bytes → Enr → Time → TopicTable × Result Error (Unit {0})
  register t topic enr current_time =
      let touched = touch t topic in
      let present = take (t.max_queue_size - 1) (map node_id (get_enrs_for_topic touched topic)) in
      elim (get_wait_time touched topic current_time) [
        | raise e ↦ (touched, raise e)
        | ok wait_time ↦
            if before zero_time wait_time
            then (touched, raise must_wait)
            else if elem (node_id enr) present
            then (touched, raise already_present)
            else elim (make_room touched) [
              | raise e ↦ (touched, raise e)
              | ok roomy ↦ (
                add_ad roomy topic (record { enr = enr; registration_time = current_time }),
                ok tt,
              )
            ]
      ]
