-- ===== src/V5/TopicTable/Register.antt =====
-- The sizes of the table of ddht/v5/topic_table.py, and what `register` does to it.
use mathlib.Core.Path.{subst}
use ddht.V5.TopicTable.{
  Clock, Error, earlier, Ad, Queues, TopicTable, queue_of, put_queue, touch, is_full, oldest_in,
  oldest_time, pop_oldest, make_room, append_left, add_ad, register, get_wait_time,
  get_enrs_for_topic,
}
use ddht.Prelude.{
  ℕ, ap, sym, ◌∙◌, ◌+◌, ◌-◌, ◌≡◌, ◌≤◌, ◌<◌, arith, min, some, ap, sym, ◌∙◌, none, Option, true, ◌⊎◌,
  List, [], ◌∷◌, map, leb, ◌==◌, length, take, elem, get_last?, drop_last, length-take, Bool-cases,
  refl, inl, inr, Option-cases,
}
use ddht.Prelude.Bytes.{Bytes, bytes_eq}
use ddht.Prelude.Outcomes.{Result, ok, raise, Result-cases}

module _ (clock : Clock) (Enr : Type 0) (node_id : Enr → Bytes) where
  -- the number of ads of all queues
  abbrev pub total : Queues clock Enr node_id → ℕ
  total [] = 0
  total ((t, queue) ∷ queues) = length queue + total queues

  abbrev pub AllShort : ℕ → Queues clock Enr node_id → Type 0
  AllShort limit [] = Unit
  AllShort limit ((t, queue) ∷ queues) = (length queue ≤ limit) × AllShort limit queues

  -- `total_size` is the number of ads, and no bound is passed
  pub record IsValid (t : TopicTable clock Enr node_id) : Type 0 where
    pub sum : t.total_size ≡ total t.topic_queues
    pub short : AllShort t.max_queue_size t.topic_queues
    pub within : t.total_size ≤ t.max_total_size

  length-queue_of :
      (queues : Queues clock Enr node_id) (topic : Bytes)
      → length (queue_of clock Enr node_id queues topic) ≤ total queues
  unfolding queue_of
  length-queue_of [] topic = omega arith
  length-queue_of ((t, queue) ∷ queues) topic = ground (arith, length-queue_of queues topic)

  total-put_queue :
      (queues : Queues clock Enr node_id) (topic : Bytes) (queue : List (Ad clock Enr node_id))
      → total (put_queue clock Enr node_id queues topic queue)
        ≡ total queues - length (queue_of clock Enr node_id queues topic) + length queue
  unfolding put_queue queue_of
  total-put_queue [] topic queue = omega arith
  total-put_queue ((t, old) ∷ queues) topic queue =
      ground (arith, total-put_queue queues topic queue, length-queue_of queues topic)

  AllShort-queue_of :
      (limit : ℕ) (queues : Queues clock Enr node_id) (topic : Bytes)
      → AllShort limit queues
      → length (queue_of clock Enr node_id queues topic) ≤ limit
  unfolding queue_of
  AllShort-queue_of limit [] topic short = omega arith
  AllShort-queue_of limit ((t, queue) ∷ queues) topic short =
      ground (arith, AllShort-queue_of limit queues topic short.1, short.0)

  AllShort-put_queue :
      (limit : ℕ) (queues : Queues clock Enr node_id) (topic : Bytes)
      (queue : List (Ad clock Enr node_id))
      → length queue ≤ limit
      → AllShort limit queues
      → AllShort limit (put_queue clock Enr node_id queues topic queue)
  unfolding put_queue
  AllShort-put_queue limit [] topic queue le short = (le, tt)
  AllShort-put_queue limit ((t, old) ∷ queues) topic queue le short =
      elim (Bool-cases (t == topic)) [
        | inl here ↦ rw here (le, short.1)
        | inr on ↦ rw on (short.0, AllShort-put_queue limit queues topic queue le short.1)
      ]

  oldest_in-pos :
      (queue : List (Ad clock Enr node_id)) (time : clock.Time)
      → oldest_in clock Enr node_id queue ≡ some time
      → 1 + length (drop_last queue) ≡ length queue
  unfolding drop_last get_last?
  oldest_in-pos [] time h = cc
  oldest_in-pos (a ∷ []) time h = refl
  oldest_in-pos (a ∷ b ∷ r) time h = omega (arith, oldest_in-pos (b ∷ r) time h)

  earlier-cases :
      (a time : clock.Time) (other : Option clock.Time)
      → earlier clock Enr node_id (some a) other ≡ some time
      → (clock.same a time ≡ true) ⊎ (other ≡ some time)
  earlier-cases a time none h =
      let e : a ≡ time = ground (arith, h) in
      inl (subst (λ x. clock.same a x ≡ true) e (clock.same_refl a))
  earlier-cases a time (some b) h = elim (Bool-cases (clock.before b a)) [
    | inl sooner ↦ inr (rw sooner at h)
    | inr later ↦
        let e : a ≡ time = ground (arith, h, later) in
        inl (subst (λ x. clock.same a x ≡ true) e (clock.same_refl a))
  ]

  -- the oldest time of a queue before some others
  abbrev then_rest : Queues clock Enr node_id → Option clock.Time → Option clock.Time
  then_rest queues time = earlier clock Enr node_id time (oldest_time clock Enr node_id queues)

  total-pop_oldest :
      (time : clock.Time) (queues : Queues clock Enr node_id)
      → oldest_time clock Enr node_id queues ≡ some time
      → 1 + total (pop_oldest clock Enr node_id time queues) ≡ total queues
  unfolding oldest_time pop_oldest
  total-pop_oldest time [] h = cc
  total-pop_oldest time ((t, queue) ∷ queues) h = elim (Option-cases (get_last? queue)) [
    | inl empty ↦
        let read : oldest_in clock Enr node_id queue ≡ none = rw (oldest_in, empty) refl in
        let rest : 1 + total (pop_oldest clock Enr node_id time queues) ≡ total queues =
          total-pop_oldest time queues (ap (then_rest queues) (sym read) ∙ h) in
        rw (pop_oldest, empty) (omega (arith, rest))
    | inr (ad, last) ↦
        let read : oldest_in clock Enr node_id queue ≡ some ad.registration_time =
          rw (oldest_in, last) refl in
        let one = oldest_in-pos queue ad.registration_time read in
        elim (Bool-cases (clock.same ad.registration_time time)) [
          | inl here ↦ rw (pop_oldest, last, here) (omega (arith, one))
          | inr on ↦
              let found : oldest_time clock Enr node_id queues ≡ some time =
                elim (earlier-cases ad.registration_time time (oldest_time clock Enr node_id queues)
                  (ap (then_rest queues) (sym read) ∙ h)) [
                    | inl same ↦ absurd (ground (arith, same, on))
                    | inr rest ↦ rest
                  ] in
              rw (pop_oldest, last, on) (omega (arith, total-pop_oldest time queues found))
        ]
  ]

  AllShort-pop_oldest :
      (limit : ℕ) (time : clock.Time) (queues : Queues clock Enr node_id)
      → AllShort limit queues
      → AllShort limit (pop_oldest clock Enr node_id time queues)
  unfolding pop_oldest
  AllShort-pop_oldest limit time [] short = tt
  AllShort-pop_oldest limit time ((t, queue) ∷ queues) short =
      elim (Option-cases (get_last? queue)) [
        | inl empty ↦
            rw (pop_oldest, empty) (short.0, AllShort-pop_oldest limit time queues short.1)
        | inr (ad, last) ↦ elim (Bool-cases (clock.same ad.registration_time time)) [
          | inl here ↦
              rw (pop_oldest, last, here)
                (ground (arith, last, short.0, oldest_in-pos queue ad.registration_time), short.1)
          | inr on ↦
              rw (pop_oldest, last, on) (short.0, AllShort-pop_oldest limit time queues short.1)
        ]
      ]

  length-append_left :
      (limit : ℕ) (ad : Ad clock Enr node_id) (queue : List (Ad clock Enr node_id))
      → length (append_left clock Enr node_id limit ad queue) ≡ min limit (1 + length queue)
  length-append_left limit ad queue = omega (arith, length-take limit (ad ∷ queue))

  pub touch-IsValid :
      (t : TopicTable clock Enr node_id) (topic : Bytes)
      → IsValid t
      → IsValid (touch clock Enr node_id t topic)
  unfolding touch
  touch-IsValid t topic v = record {
    sum = omega (
      arith,
      v.sum,
      total-put_queue t.topic_queues topic (queue_of clock Enr node_id t.topic_queues topic),
      length-queue_of t.topic_queues topic,
    );
    short =
        AllShort-put_queue t.max_queue_size t.topic_queues topic _
          (AllShort-queue_of t.max_queue_size t.topic_queues topic v.short) v.short;
    within = v.within;
  }

  -- room for one more ad
  record IsRoomy (t : TopicTable clock Enr node_id) : Type 0 where
    valid : IsValid t
    room : t.total_size < t.max_total_size

  abbrev AllRoomy : Result Error (TopicTable clock Enr node_id) → Type 0
  AllRoomy (ok t) = IsRoomy t
  AllRoomy (raise e) = Unit

  make_room-AllRoomy :
      (t : TopicTable clock Enr node_id) → IsValid t → AllRoomy (make_room clock Enr node_id t)
  unfolding make_room is_full
  make_room-AllRoomy t v = elim (Bool-cases (leb t.max_total_size t.total_size)) [
    | inl full ↦ elim (Option-cases (oldest_time clock Enr node_id t.topic_queues)) [
      | inl empty ↦ rw (make_room, full, empty) tt
      | inr (time, oldest) ↦
          let pops = total-pop_oldest time t.topic_queues oldest in
          rw (make_room, full, oldest)
            (record {
              valid = record {
                sum = omega (arith, v.sum, pops);
                short = AllShort-pop_oldest t.max_queue_size time t.topic_queues v.short;
                within = omega (arith, v.within);
              };
              room = omega (arith, v.sum, pops, v.within);
            })
    ]
    | inr free ↦ rw (make_room, free) (record { valid = v; room = ground (arith, free) })
  ]

  add_ad-IsValid :
      (t : TopicTable clock Enr node_id) (topic : Bytes) (ad : Ad clock Enr node_id)
      → IsRoomy t
      → IsValid (add_ad clock Enr node_id t topic ad)
  unfolding add_ad
  add_ad-IsValid t topic ad v =
      let queue = queue_of clock Enr node_id t.topic_queues topic in
      let longer = append_left clock Enr node_id t.max_queue_size ad queue in
      let size = length-append_left t.max_queue_size ad queue in
      let part = length-queue_of t.topic_queues topic in
      record {
        sum = omega (arith, v.valid.sum, total-put_queue t.topic_queues topic longer, part);
        short =
            AllShort-put_queue t.max_queue_size t.topic_queues topic longer (omega (arith, size))
              v.valid.short;
        within = omega (arith, v.room, size, part, v.valid.sum);
      }

  -- Whatever `register` does and raises, the size of the table is the number of its ads, no queue has more ads than a queue may have, and the table no more than it may have.
  pub register-IsValid :
      (t : TopicTable clock Enr node_id) (topic : Bytes) (enr : Enr) (current_time : clock.Time)
      → IsValid t
      → IsValid (register clock Enr node_id t topic enr current_time).0
  unfolding register
  register-IsValid t topic enr current_time v =
      let touched = touch clock Enr node_id t topic in
      let still = touch-IsValid t topic v in
      let present = elem (node_id enr) (
        take (t.max_queue_size - 1)
          (map node_id (get_enrs_for_topic clock Enr node_id touched topic))) in
      elim (Result-cases (get_wait_time clock Enr node_id touched topic current_time)) [
        | inl (e, h) ↦ rw (register, h) still
        | inr (wait_time, h) ↦ elim (Bool-cases (clock.before clock.zero_time wait_time)) [
          | inl waits ↦ rw (register, h, waits) still
          | inr ready ↦ elim (Bool-cases present) [
            | inl known ↦ rw (register, h, ready, known) still
            | inr new ↦ elim (Result-cases (make_room clock Enr node_id touched)) [
              | inl (e, m) ↦ rw (register, h, ready, new, m) still
              | inr (roomy, m) ↦
                  rw (register, h, ready, new, m)
                    (add_ad-IsValid roomy topic _
                      (subst AllRoomy m (make_room-AllRoomy touched still)))
            ]
          ]
        ]
      ]
