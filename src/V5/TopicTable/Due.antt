-- ===== src/V5/TopicTable/Due.antt =====
-- When an ad is due in ddht/v5/topic_table.py.
use ddht.V5.TopicTable.{Clock, oldest_in, oldest_time, max_time, TopicTable, queue_of}
use ddht.Prelude.{leb, length, true, false, Option, some, none, Bool}
use ddht.Prelude.Bytes.{Bytes, bytes_eq}

module _ (clock : Clock) (Enr : Type 0) (node_id : Enr → Bytes) where
  -- the time of the oldest ad of a queue or a table, where it is full
  abbrev pub held_until : Bool → Option clock.Time → Option clock.Time
  held_until true oldest = oldest
  held_until false oldest = none

  abbrev pub later_of : Option clock.Time → Option clock.Time → Option clock.Time
  later_of none other = other
  later_of (some a) none = some a
  later_of (some a) (some b) = some (max_time clock Enr node_id a b)

  abbrev pub after_lifetime : clock.Time → Option clock.Time → Option clock.Time
  after_lifetime lifetime none = none
  after_lifetime lifetime (some time) = some (clock.add time lifetime)

  -- the time from which an ad for a topic is accepted, if there is one: the lifetime of an ad after
  -- the oldest ad of its full queue and that of the full table
  abbrev pub due : TopicTable clock Enr node_id → Bytes → Option clock.Time
  due t topic =
      let queue = queue_of clock Enr node_id t.topic_queues topic in
      after_lifetime t.target_ad_lifetime (
        later_of
          (held_until (leb t.max_queue_size (length queue)) (oldest_in clock Enr node_id queue))
          (held_until (leb t.max_total_size t.total_size)
            (oldest_time clock Enr node_id t.topic_queues)))
