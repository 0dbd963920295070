-- ===== src/Pipeline/Batching/Progress.antt =====
-- The worker thread serves all that is queued.
use mathlib.Core.Path.{subst}
use jetsonfabric.Base.{
  if◌then◌else◌, ◌≡◌, refl, ap, sym, ◌∙◌, ◌≤◌, ◌<◌, ℕ, zero, suc, min, true, false, List, [], ◌∷◌,
  length, length-drop, append-nil, Bool-cases, inl, inr, arith,
}
use jetsonfabric.Inference.{StageInput}
use jetsonfabric.Pipeline.Batching.{
  Batching, PendingExecution, Outcome, Worker, waiting, gathering, ended, executing, wake, is_empty,
  next_batch, run_batch, fail_pending, inputs_of,
}
use jetsonfabric.Pipeline.Batching.Order.{
  executions, in_flight, served, IsOrdered, Worker-Fits, Step-IsOrdered, executions-wake,
  executions-next_batch, executions-run_batch, executions-fail_pending, some_left,
}
use jetsonfabric.Pipeline.Batching.System.{
  Step, Steps, wakes, pops, runs, fails_waiting, fails_gathering, here, later,
}

-- The delegate answers every batch, or throws.
abbrev pub Total : (List StageInput → Outcome → Type 0) → Type 0
Total Gives = (inputs : List StageInput) → (o : Outcome) × Gives inputs o

-- No call waits for its answer.
abbrev Idle : Batching → Type 0
Idle t = (t.queue ≡ []) × (in_flight t.worker ≡ [])

no_elements : (queue : List PendingExecution) → length queue ≤ 0 → queue ≡ []
no_elements [] h = refl
no_elements (p ∷ queue) h = absurd (omega arith)

empty_queue : (queue : List PendingExecution) → is_empty queue ≡ true → queue ≡ []
unfolding is_empty
empty_queue [] e = refl
empty_queue (p ∷ queue) e = absurd (cc)

all_served :
    (t : Batching) → t.queue ≡ [] → in_flight t.worker ≡ [] → served t.completed ≡ executions t
all_served t q w = rw (q, w) (sym (append-nil _))

module _ (Gives : List StageInput → Outcome → Type 0) where
  Steps-trans : {s t u : Batching} → Steps Gives s t → Steps Gives t u → Steps Gives s u
  Steps-trans r here = r
  Steps-trans r (later q st) = later (Steps-trans r q) st

  -- A state that follows with the same calls and the same stop flag.
  record Follows (s t : Batching) : Type 0 where
    steps : Steps Gives s t
    same : executions t ≡ executions s
    flag : t.stop_requested ≡ s.stop_requested
    sound : IsOrdered t

  Follows-step :
      {s t : Batching}
      → IsOrdered s
      → Step Gives s t
      → executions t ≡ executions s
      → t.stop_requested ≡ s.stop_requested
      → Follows s t
  Follows-step v st e f = record {
    steps = later here st;
    same = e;
    flag = f;
    sound = Step-IsOrdered v st;
  }

  Follows-here : {s : Batching} → IsOrdered s → Follows s s
  Follows-here v = record { steps = here; same = refl; flag = refl; sound = v }

  Follows-trans : {s t u : Batching} → Follows s t → Follows t u → Follows s u
  Follows-trans a b = record {
    steps = Steps-trans a.steps b.steps;
    same = b.same ∙ a.same;
    flag = b.flag ∙ a.flag;
    sound = b.sound;
  }

  after_batch :
      (total : Total Gives) (s : Batching) (pending : List PendingExecution)
      → IsOrdered s
      → s.worker ≡ executing pending
      → (t : Batching) × Follows s t × (t.worker ≡ waiting) × (t.queue ≡ s.queue)
  unfolding run_batch
  after_batch total s pending v w =
      let (o, g) = total (inputs_of pending) in
      (
        run_batch pending o s,
        Follows-step v (runs pending o w g) (executions-run_batch s pending o w) refl,
        refl,
        refl,
      )

  after_gathering :
      (total : Total Gives) (s : Batching)
      → IsOrdered s
      → s.worker ≡ gathering
      → s.stop_requested ≡ false
      → (t : Batching) × Follows s t × (t.worker ≡ waiting) × (length t.queue < length s.queue)
  unfolding next_batch
  after_gathering total s v w go =
      let popped = Follows-step v (pops w go) (executions-next_batch s w) refl in
      let (t, f, waits, rest) = after_batch total (next_batch s) _ popped.sound refl in
      let some = some_left s.queue (subst (λ x. Worker-Fits x s) w v.fits) in
      let two = v.capacity in
      let shorter = length-drop (min s.config.max_batch_size (length s.queue)) s.queue in
      (t, Follows-trans popped f, waits, rw rest (omega arith))

  after_waiting :
      (total : Total Gives) (fuel : ℕ) (s : Batching)
      → IsOrdered s
      → s.worker ≡ waiting
      → s.stop_requested ≡ false
      → length s.queue ≤ fuel
      → (t : Batching) × Follows s t × Idle t
  unfolding wake
  after_waiting total zero s v w go h = (s, Follows-here v, (no_elements s.queue h, ap in_flight w))
  after_waiting total (suc fuel) s v w go h = elim (Bool-cases (is_empty s.queue)) [
    | inl e ↦ (s, Follows-here v, (empty_queue s.queue e, ap in_flight w))
    | inr e ↦
        let woken = Follows-step v (wakes w go e) (executions-wake s w) refl in
        let (t, f, waits, fewer) =
          after_gathering total (wake s) woken.sound (ap (λ b. if b then waiting else gathering) e)
            go in
        let (u, g, idle) = after_waiting total fuel t f.sound waits (f.flag ∙ go) (omega arith) in
        (u, Follows-trans woken (Follows-trans f g), idle)
  ]

  -- A worker at the first wait serves the queue, or fails it if it has to stop.
  from_waiting :
      (total : Total Gives) (s : Batching)
      → IsOrdered s
      → s.worker ≡ waiting
      → (t : Batching) × Follows s t × Idle t
  unfolding fail_pending
  from_waiting total s v w = elim (Bool-cases s.stop_requested) [
    | inl stop ↦ (
      fail_pending s,
      Follows-step v (fails_waiting w stop) (executions-fail_pending s (ap in_flight w)) refl,
      (refl, refl),
    )
    | inr go ↦ after_waiting total (length s.queue) s v w go (omega arith)
  ]

  from_gathering :
      (total : Total Gives) (s : Batching)
      → IsOrdered s
      → s.worker ≡ gathering
      → (t : Batching) × Follows s t × Idle t
  unfolding fail_pending
  from_gathering total s v w = elim (Bool-cases s.stop_requested) [
    | inl stop ↦ (
      fail_pending s,
      Follows-step v (fails_gathering w stop) (executions-fail_pending s (ap in_flight w)) refl,
      (refl, refl),
    )
    | inr go ↦
        let (t, f, waits, fewer) = after_gathering total s v w go in
        let (u, g, idle) = from_waiting total t f.sound waits in (u, Follows-trans f g, idle)
  ]

  from_worker :
      (total : Total Gives) (s : Batching) (w : Worker)
      → IsOrdered s
      → s.worker ≡ w
      → (t : Batching) × Follows s t × Idle t
  from_worker total s waiting v w = from_waiting total s v w
  from_worker total s gathering v w = from_gathering total s v w
  from_worker total s ended v w =
      (s, Follows-here v, ((subst (λ x. Worker-Fits x s) w v.fits).0, ap in_flight w))
  from_worker total s (executing pending) v w =
      let (t, f, waits, rest) = after_batch total s pending v w in
      let (u, g, idle) = from_waiting total t f.sound waits in (u, Follows-trans f g, idle)

  -- If the delegate answers or throws for every batch, then from each sound state the worker thread
  -- alone, with no further call and no further request to stop, comes to a state in which the
  -- calls answered are exactly the calls that were queued, in their order, and none waits.
  pub drains :
      (total : Total Gives) (s : Batching)
      → IsOrdered s
      → (t : Batching) × Steps Gives s t
        × (served t.completed ≡ executions s)
        × (t.queue ≡ [])
        × (t.stop_requested ≡ s.stop_requested)
  drains total s v =
      let (t, f, (empty, idle)) = from_worker total s s.worker v refl in
      (t, f.steps, all_served t empty idle ∙ f.same, empty, f.flag)
