-- ===== src/Tests/Queues.antt =====
-- ddht/resource_queue.py, ddht/request_tracker.py and ddht/v5/topic_table.py with small states.
use ddht.ResourceQueue.{State, Steps, takes, releases, done, step, take_last, release, reserve}
use ddht.ResourceQueue.Reserve.{Ends, reserve-Ends}
use ddht.ResourceQueue.Sharing.{uses, held-once, held-twice}
use ddht.V5.TopicTable
use ddht.V5.TopicTable.{
  Clock, next_registration_time, Ad, TopicTable, register, queue_of, get_wait_time,
}
use ddht.V5.TopicTable.Register.{IsValid, register-IsValid}
use ddht.V5.TopicTable.Due.{due}
use ddht.Prelude.{
  ltb, nat_beq, nat_beq_iff, ◌-◌, ℕ, ◌≡◌, ◌≤◌, ◌+◌, refl, true, some, [], ◌∷◌, elem, count, arith,
  get_last?,
}
use ddht.Prelude.Tests.{nat_eq}
use ddht.Prelude.Bytes.{Bytes, bytes_eq}

-- two resources, of which one has been taken out of the set, and a held one
abbrev queue : State ℕ
queue = record { resources = 1 ∷ 3 ∷ []; queue = 1 ∷ 2 ∷ []; held = 3 ∷ []; adding = [] }

reserve-Ends_example : Ends queue (reserve 2 queue)
reserve-Ends_example =
    reserve-Ends 2 queue 1 (unfold elem in refl) (unfold count in omega arith) (omega arith)

still_held : elem 3 (take_last queue).1.held ≡ true
unfolding take_last get_last? elem
still_held = refl

abbrev queue_run : Steps queue (release (take_last queue).1 3)
queue_run =
    step queue (take_last queue).1 _ (takes queue)
      (step (take_last queue).1 _ _ (releases (take_last queue).1 3 still_held) (done _))

queue-uses : (x : ℕ) → uses queue x ≤ 1
unfolding count
queue-uses x = ground arith

held-once_example : count 3 (release (take_last queue).1 3).held ≤ 1
held-once_example = held-once queue _ queue_run queue-uses (tt, (tt, tt)) 3

abbrev held_one : State ℕ
held_one = record { resources = 3 ∷ []; queue = []; held = 3 ∷ []; adding = [] }

held-twice_example : (t : State ℕ) × Steps held_one t × (count 3 t.held ≡ 2)
held-twice_example = held-twice held_one 3 (unfold count in refl) refl (unfold count in refl)

-- whole seconds
abbrev clock : Clock
clock = record {
  Time = ℕ;
  zero_time = 0;
  before = ltb;
  same = nat_beq;
  add = λ a b. a + b;
  subtract = λ a b. a - b;
  same_refl = λ a. (nat_beq_iff a a).1 refl;
  before_asym = λ a b h. ground (arith, h);
  before-subtract = λ a b. ground arith;
}

abbrev node_id : ℕ → Bytes
node_id n = n ∷ []

abbrev ad : ℕ → ℕ → Ad clock ℕ node_id
ad enr time = record { enr = enr; registration_time = time }

-- a full queue, in a table with room
abbrev table : TopicTable clock ℕ node_id
table = record {
  max_queue_size = 2;
  max_total_size = 5;
  target_ad_lifetime = 10;
  topic_queues = (8 ∷ [], ad 4 6 ∷ ad 5 3 ∷ []) ∷ [];
  total_size = 2;
}

table-IsValid : IsValid clock ℕ node_id table
table-IsValid = record { sum = refl; short = (omega arith, tt); within = omega arith }

register-IsValid_example : IsValid clock ℕ node_id (register clock ℕ node_id table (8 ∷ []) 6 20).0
register-IsValid_example = register-IsValid clock ℕ node_id table (8 ∷ []) 6 20 table-IsValid

-- the ad of time 3 leaves the full queue ten seconds later
due_at_13 : due clock ℕ node_id table (8 ∷ []) ≡ some 13
unfolding queue_of get_last?
due_at_13 = refl
