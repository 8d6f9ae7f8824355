-- ===== src/ResourceQueue/Sharing.antt =====
-- Who holds a resource of ddht/resource_queue.py.
use mathlib.Core.Path.{subst}
use ddht.Prelude.Tests.{==_refl}
use ddht.ResourceQueue.{
  State, Step, Steps, asks, adds, removes, takes, releases, done, step, ask_add, add,
  remove_resource, take_last, release,
}
use ddht.ResourceQueue.Reserve.{
  count-drop_last, take_last-tracked, take_last-stale, take_last-empty,
}
use ddht.Prelude.{
  ℕ, ◌+◌, ◌≤◌, arith, ◌≡◌, true, false, Option, some, List, [], ◌∷◌, elem, remove, get_last?, count,
  count-cons, count-remove, elem-count, Option-cases, inl, inr, Bool-cases, ap, ◌∙◌, count_self,
}
use ddht.Prelude.Tests.{Eq}

module _ {Resource : Type 0} ⦃e : Eq Resource⦄ where
  -- where a resource can come from: the queue, the workers, the calls of `add` under way
  abbrev pub uses : State Resource → Resource → ℕ
  uses s x = count x s.queue + count x s.held + count x s.adding

  -- what the users of the queue see to: a resource that is added is not in use
  abbrev pub IsFresh : (s t : State Resource) → Step s t → Type 0
  IsFresh s t (asks _ resource) = uses s resource ≡ 0
  IsFresh s t _ = Unit

  abbrev pub AllFresh : (s t : State Resource) → Steps s t → Type 0
  AllFresh s t (done _) = Unit
  AllFresh s t (step _ u _ first rest) = IsFresh s u first × AllFresh u t rest

  uses-step :
      (s t : State Resource) (next : Step s t)
      → IsFresh s t next
      → ((x : Resource) → uses s x ≤ 1)
      → (x : Resource) → uses t x ≤ 1
  unfolding ask_add add remove_resource release
  uses-step s t (asks _ resource) fresh once x =
      ground (arith, count-cons x resource s.adding, once x, e.beq_iff resource x, fresh)
  uses-step s t (adds _ resource there) fresh once x = ground (
    arith,
    count-cons x resource s.queue,
    count-remove resource x s.adding,
    elem-count resource s.adding there,
    once x,
    e.beq_iff resource x,
  )
  uses-step s t (removes _ resource) fresh once x =
      ground (arith, count-remove resource x s.queue, once x)
  uses-step s t (takes _) fresh once x = elim (Option-cases (get_last? s.queue)) [
    | inl empty ↦ rw (take_last-empty s empty) (once x)
    | inr (r, last) ↦ elim (Bool-cases (elem r s.resources)) [
      | inl is ↦
          rw (take_last-tracked s r last is)
            (ground (arith, once x, count-drop_last x r s.queue last, count-cons x r s.held))
      | inr stale ↦
          rw (take_last-stale s r last stale)
            (ground (arith, once x, count-drop_last x r s.queue last))
    ]
  ]
  uses-step s t (releases _ resource there) fresh once x = ground (
    arith,
    count-cons x resource s.queue,
    count-remove resource x s.held,
    elem-count resource s.held there,
    once x,
    e.beq_iff resource x,
  )

  -- Two workers never hold the same resource, whatever the tasks do and in whichever order, if no resource is added that is in the queue, held, or being added already.
  pub held-once :
      (s t : State Resource) (run : Steps s t)
      → ((x : Resource) → uses s x ≤ 1)
      → AllFresh s t run
      → (x : Resource) → count x t.held ≤ 1
  held-once s t (done _) once fresh x = omega (arith, once x)
  held-once s t (step _ u _ first rest) once fresh x =
      held-once u t rest (uses-step s u first fresh.0 once) fresh.1 x

  elem-remove_last :
      (r : Resource) (xs : List Resource) → count r xs ≡ 1 → elem r (remove r xs) ≡ false
  elem-remove_last r xs h =
      ground (arith, elem-count r (remove r xs), count-remove r r xs, ==_refl r)

  ask_add-fresh :
      (s : State Resource) (r : Resource)
      → elem r s.resources ≡ false
      → ask_add s r ≡ record s { adding = r ∷ s.adding }
  unfolding ask_add
  ask_add-fresh s r h = ground (arith, h)

  -- Without that, a resource which a worker holds can be removed and added again, and the next worker gets it too.
  pub held-twice :
      (s : State Resource) (r : Resource)
      → count r s.held ≡ 1
      → s.queue ≡ []
      → count r s.resources ≡ 1
      → (t : State Resource) × Steps s t × (count r t.held ≡ 2)
  unfolding add remove_resource remove get_last? elem
  held-twice s r held empty tracked =
      let removed = remove_resource s r in
      let asked = record removed { adding = r ∷ s.adding } in
      let added = add asked r in
      let gone = elem-remove_last r s.resources tracked in
      let asking = ask_add-fresh removed r gone in
      let last : get_last? added.queue ≡ some r =
        ap (λ (q : List Resource). get_last? (r ∷ remove r q)) empty in
      let is : elem r added.resources ≡ true = ground (arith, gone, ==_refl r) in
      let taken = take_last-tracked added r last is in
      (
        (take_last added).1,
        step s removed _ (removes s r) (
            step removed asked _ (subst (Step removed) asking (asks removed r)) (
              step asked added _ (adds asked r (ground (arith, ==_refl r)))
                (step added _ _ (takes added) (done _)))),
        ap (λ (p : Option Resource × State Resource). count r p.1.held) taken
            ∙ omega (arith, count_self r s.held, held),
      )
