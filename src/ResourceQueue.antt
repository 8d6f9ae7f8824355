-- ===== src/ResourceQueue.antt =====
-- `ResourceQueue` of ddht/resource_queue.py. A method runs alone from where it has the lock to where
-- it releases it; what it does before it asks for the lock is a step of its own. `deque.pop` takes
-- from the right end of the queue.
pub mod Reserve
pub mod Sharing
use ddht.Prelude.{
  ℕ, zero, suc, ◌≡◌, Bool, true, false, Option, none, some, List, [], ◌∷◌, if◌then◌else◌, elem,
  remove, get_last?, drop_last, not, keep_if, ◌==◌,
}
use ddht.Prelude.Tests.{Eq}

-- `resources` and `_queue`, the workers that are inside the block of `reserve` as the list of what
-- they hold, and the calls of `add` that wait for the lock
pub record State (Resource : Type 0) : Type 0 where
  pub resources : List Resource
  pub queue : List Resource
  pub held : List Resource
  pub adding : List Resource

module _ {Resource : Type 0} ⦃e : Eq Resource⦄ where
  -- `add`: the test before the lock, and the rest
  unfoldable pub ask_add : State Resource → Resource → State Resource
  ask_add s resource =
      if elem resource s.resources then s else record s { adding = resource ∷ s.adding }

  unfoldable pub add : State Resource → Resource → State Resource
  add s resource = record s {
    queue = resource ∷ s.queue;
    resources = if elem resource s.resources then s.resources else resource ∷ s.resources;
    adding = remove resource s.adding;
  }

  -- the method `remove`
  unfoldable pub remove_resource : State Resource → Resource → State Resource
  remove_resource s resource = record s {
    resources = remove resource s.resources;
    queue = remove resource s.queue;
  }

  -- one round of the loop of `reserve`: `none` is `continue`
  unfoldable pub take_last : State Resource → Option Resource × State Resource
  take_last s = elim (get_last? s.queue) [
    | none ↦ (none, s)
    | some resource ↦
        let popped = record s { queue = drop_last s.queue } in
        if elem resource s.resources
        then (some resource, record popped { held = resource ∷ s.held })
        else (none, popped)
  ]

  -- the loop, with a bound on its rounds
  unfoldable pub reserve : ℕ → State Resource → Option Resource × State Resource
  reserve zero s = (none, s)
  reserve (suc rounds) s =
      let (taken, after) = take_last s in
      let rest = reserve rounds after in
      elim taken [ none ↦ rest | some resource ↦ (some resource, after) ]

  -- the `finally` of `reserve`
  unfoldable pub release : State Resource → Resource → State Resource
  release s resource = record s {
    queue = if elem resource s.resources then resource ∷ s.queue else s.queue;
    held = remove resource s.held;
  }

  -- what the tasks can do next
  pub data Step : State Resource → State Resource → Type 0 where
    asks : (s : State Resource) (resource : Resource) → Step s (ask_add s resource)
    adds :
        (s : State Resource) (resource : Resource)
        → elem resource s.adding ≡ true
        → Step s (add s resource)
    removes : (s : State Resource) (resource : Resource) → Step s (remove_resource s resource)
    takes : (s : State Resource) → Step s (take_last s).1
    releases :
        (s : State Resource) (resource : Resource)
        → elem resource s.held ≡ true
        → Step s (release s resource)

  pub data Steps : State Resource → State Resource → Type 0 where
    done : (s : State Resource) → Steps s s
    step : (s t u : State Resource) → Step s t → Steps t u → Steps s u
