-- ===== src/V5/TopicTable/Waiting.antt =====
-- The waiting time of ddht/v5/topic_table.py.
use ddht.V5.TopicTable.{
  Clock, next_registration_time, time_left, Ad, Queues, TopicTable, must_wait, queue_of, put_queue,
  touch, make_room, append_left, add_ad, register, get_wait_time, get_enrs_for_topic,
}
use ddht.Prelude.{
  ℕ, ◌-◌, ◌≡◌, ◌<◌, arith, zero, suc, true, false, Option, some, none, Bool, Bool-cases, sym, List,
  [], ◌∷◌, map, take, elem, inl, inr, ==_refl, get_elem?, refl, ap, ◌∙◌,
}
use ddht.Prelude.Bytes.{Bytes, bytes_eq}
use ddht.Prelude.Outcomes.{ok, raise, Result-cases}

module _ (clock : Clock) (Enr : Type 0) (node_id : Enr → Bytes) where
  -- whether it is before the time from which an ad is accepted, if there is such a time
  abbrev pub is_early : Option clock.Time → clock.Time → Bool
  is_early none time = false
  is_early (some next) time = clock.before time next

  not_before_itself : clock.before clock.zero_time clock.zero_time ≡ false
  not_before_itself = elim (Bool-cases (clock.before clock.zero_time clock.zero_time)) [
    | inl less ↦ clock.before_asym clock.zero_time clock.zero_time less
    | inr not_less ↦ not_less
  ]

  before-time_left :
      (next : Option clock.Time) (time : clock.Time)
      → clock.before clock.zero_time (time_left clock Enr node_id next time) ≡ is_early next time
  before-time_left none time = not_before_itself
  before-time_left (some next) time =
      let left = clock.subtract next time in
      elim (Bool-cases (clock.before left clock.zero_time)) [
        | inl negative ↦ rw negative (
            not_before_itself
            ∙ sym (
                sym (clock.before-subtract next time)
                ∙ clock.before_asym left clock.zero_time negative))
        | inr positive ↦ rw positive (clock.before-subtract next time)
      ]

  make_room-ok :
      (t : TopicTable clock Enr node_id) (topic : Bytes) (due : Option clock.Time)
      → next_registration_time clock Enr node_id t topic ≡ ok due
      → (roomy : TopicTable clock Enr node_id) × (make_room clock Enr node_id t ≡ ok roomy)
  unfolding next_registration_time make_room
  make_room-ok t topic due h = elim (Result-cases (make_room clock Enr node_id t)) [
    | inl (e, m) ↦ absurd (ground (arith, h, m))
    | inr (roomy, m) ↦ (roomy, m)
  ]

  queue_of-put_queue :
      (queues : Queues clock Enr node_id) (topic : Bytes) (queue : List (Ad clock Enr node_id))
      → queue_of clock Enr node_id (put_queue clock Enr node_id queues topic queue) topic ≡ queue
  unfolding queue_of put_queue
  queue_of-put_queue [] topic queue = ground (arith, ==_refl topic)
  queue_of-put_queue ((t, old) ∷ queues) topic queue =
      ground (arith, queue_of-put_queue queues topic queue)

  -- the first ad of a queue
  abbrev pub newest : List (Ad clock Enr node_id) → Option (Ad clock Enr node_id)
  newest queue = get_elem? queue 0

  newest-append_left :
      (limit : ℕ) (ad : Ad clock Enr node_id) (queue : List (Ad clock Enr node_id))
      → 0 < limit
      → newest (append_left clock Enr node_id limit ad queue) ≡ some ad
  unfolding take
  newest-append_left zero ad queue h = elim h [ ]
  newest-append_left (suc limit) ad queue h = refl

  -- the node ids among which `register` looks for that of a new ad
  abbrev pub present_node_ids : TopicTable clock Enr node_id → Bytes → List Bytes
  present_node_ids t topic =
      take (t.max_queue_size - 1) (map node_id (get_enrs_for_topic clock Enr node_id t topic))

  max_queue_size-make_room :
      (t roomy : TopicTable clock Enr node_id)
      → make_room clock Enr node_id t ≡ ok roomy
      → roomy.max_queue_size ≡ t.max_queue_size
  unfolding make_room
  max_queue_size-make_room t roomy h = ground (arith, h)

  -- what `register` does before and after the time that `get_wait_time` goes by
  pub register-from_next :
      (t : TopicTable clock Enr node_id) (topic : Bytes) (enr : Enr) (due : Option clock.Time)
      (time : clock.Time)
      → next_registration_time clock Enr node_id (touch clock Enr node_id t topic) topic ≡ ok due
      → elem (node_id enr) (present_node_ids (touch clock Enr node_id t topic) topic) ≡ false
      → 0 < t.max_queue_size
      → (is_early due time ≡ true
          → (register clock Enr node_id t topic enr time).1 ≡ raise must_wait)
        × (is_early due time ≡ false
            → ((register clock Enr node_id t topic enr time).1 ≡ ok tt)
              × (newest (
                    queue_of clock Enr node_id
                      (register clock Enr node_id t topic enr time).0.topic_queues
                      topic)
                  ≡ some (record { enr = enr; registration_time = time })))
  unfolding register touch add_ad get_wait_time
  register-from_next t topic enr due time h new pos =
      let touched = touch clock Enr node_id t topic in
      let (roomy, m) = make_room-ok touched topic due h in
      let ad : Ad clock Enr node_id = record { enr = enr; registration_time = time } in
      let same = max_queue_size-make_room touched roomy m in
      let left = before-time_left due time in
      (
        (λ early. rw (register, get_wait_time, h, left ∙ early) refl),
        λ late.
            rw (register, get_wait_time, h, left ∙ late, new, m)
              (
                refl,
                ap newest (
                      queue_of-put_queue roomy.topic_queues topic (
                        append_left clock Enr node_id roomy.max_queue_size ad
                          (queue_of clock Enr node_id roomy.topic_queues topic)))
                    ∙ newest-append_left roomy.max_queue_size ad
                        (queue_of clock Enr node_id roomy.topic_queues topic)
                        (omega (arith, same, pos)),
              ),
      )
