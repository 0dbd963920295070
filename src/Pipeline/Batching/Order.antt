-- ===== src/Pipeline/Batching/Order.antt =====
-- Every call is served once, in the order of the calls, in batches of the configured size.
use jetsonfabric.Base.{
  length-take, take, ◌≡◌, refl, ap, sym, ◌∙◌, ◌≤◌, ◌<◌, ℕ, zero, suc, min, true, false, List, [],
  ◌++◌, ◌∷◌, map, length, length-replicate, take-append-drop, append_assoc, append-nil, ◌==◌,
  ==_iff, Bool-cases, inl, inr, arith,
}
use mathlib.Core.Path.{subst}
use mathlib.Core.List.{map-append}
use jetsonfabric.Inference.{StageInput, ExecutionResult}
use jetsonfabric.Pipeline.Batching.{
  ContinuousBatchingConfig, start, Batching, PendingExecution, Completed, Outcome, returned, thrown,
  Worker, waiting, gathering, ended, executing, execute, wake, is_empty, next_batch, run_batch,
  request_stop, fail_pending, complete, batch_results,
}
use jetsonfabric.Pipeline.Batching.System.{
  Reach, Step, Steps, called, stops, wakes, pops, runs, fails_waiting, fails_gathering, here, later,
}

abbrev pub in_flight : Worker → List PendingExecution
in_flight waiting = []
in_flight gathering = []
in_flight ended = []
in_flight (executing pending) = pending

abbrev pub served : List Completed → List PendingExecution
served = map (λ c. c.execution)

-- All calls that were queued, from the first that was answered to the last that waits.
abbrev pub executions : Batching → List PendingExecution
executions s = served s.completed ++ (in_flight s.worker ++ s.queue)

abbrev pub tickets_below : ℕ → List ℕ
tickets_below zero = []
tickets_below (suc n) = tickets_below n ++ n ∷ []

abbrev pub Worker-Fits : Worker → Batching → Type 0
Worker-Fits waiting s = Unit {0}
Worker-Fits gathering s = is_empty s.queue ≡ false
Worker-Fits ended s = (s.queue ≡ []) × (s.stop_requested ≡ true)
Worker-Fits (executing pending) s =
    (is_empty pending ≡ false) × (length pending ≤ s.config.max_batch_size)

pub record IsOrdered (s : Batching) : Type 0 where
  pub capacity : 2 ≤ s.config.max_batch_size
  pub in_order : map (λ p. p.completion) (executions s) ≡ tickets_below s.next_ticket
  pub fits : Worker-Fits s.worker s

pub length-batch_results : (n : ℕ) (o : Outcome) → length (batch_results n o) ≡ n
unfolding batch_results
length-batch_results n (thrown what) = length-replicate n _
length-batch_results n (returned results) = elim (Bool-cases (length results == n)) [
  | inl e ↦ rw e ((==_iff (length results) n).0 e)
  | inr e ↦ rw e (length-replicate n _)
]

pub served-complete :
    (pending : List PendingExecution) (results : List ExecutionResult)
    → length results ≡ length pending
    → served (complete pending results) ≡ pending
unfolding complete
served-complete [] results e = refl
served-complete (p ∷ pending) [] e = absurd (omega arith)
served-complete (p ∷ pending) (r ∷ results) e =
    ap (λ ps. p ∷ ps) (served-complete pending results (omega arith))

served-map_stopped :
    (queue : List PendingExecution) (r : ExecutionResult)
    → served (map (λ p. record { execution = p; result = r }) queue) ≡ queue
served-map_stopped [] r = refl
served-map_stopped (p ∷ queue) r = ap (λ ps. p ∷ ps) (served-map_stopped queue r)

request_stop_same : (s : Batching) → executions (request_stop s) ≡ executions s ++ []
unfolding request_stop
request_stop_same s = sym (append-nil _)

-- What each step does to the sequence of calls: only a call adds to it.
executions-execute :
    (i : StageInput) (s : Batching)
    → executions (execute i s)
      ≡ executions s ++ (record { input = i; completion = s.next_ticket }) ∷ []
unfolding execute
executions-execute i s = simp append_assoc

pub executions-wake : (s : Batching) → s.worker ≡ waiting → executions (wake s) ≡ executions s
unfolding wake
executions-wake s w = rw w (elim (Bool-cases (is_empty s.queue)) [ inl e ↦ rw e | inr e ↦ rw e ])

pub executions-next_batch :
    (s : Batching) → s.worker ≡ gathering → executions (next_batch s) ≡ executions s
unfolding next_batch
executions-next_batch s w =
    rw w (rw (take-append-drop (min s.config.max_batch_size (length s.queue)) s.queue))

pub executions-run_batch :
    (s : Batching) (pending : List PendingExecution) (o : Outcome)
    → s.worker ≡ executing pending
    → executions (run_batch pending o s) ≡ executions s
unfolding run_batch
executions-run_batch s pending o w = rw w (
    simp (
      map-append,
      served-complete pending (batch_results (length pending) o)
          (length-batch_results (length pending) o),
      append_assoc,
    ))

pub executions-fail_pending :
    (s : Batching) → in_flight s.worker ≡ [] → executions (fail_pending s) ≡ executions s
unfolding fail_pending
executions-fail_pending s w = rw w (simp (map-append, served-map_stopped, append-nil))

tickets-execute :
    (i : StageInput) (s : Batching)
    → map (λ p. p.completion) (executions s) ≡ tickets_below s.next_ticket
    → map (λ p. p.completion) (executions (execute i s)) ≡ tickets_below (suc s.next_ticket)
tickets-execute i s h =
    ap (map (λ p. p.completion)) (executions-execute i s)
    ∙ map-append _ (executions s) _
    ∙ ap (λ ts. ts ++ s.next_ticket ∷ []) h

is_empty_snoc :
    (queue : List PendingExecution) (p : PendingExecution) → is_empty (queue ++ p ∷ []) ≡ false
unfolding is_empty
is_empty_snoc [] p = refl
is_empty_snoc (q ∷ queue) p = refl

fits-execute :
    (w : Worker) (i : StageInput) (s : Batching)
    → s.stop_requested ≡ false
    → Worker-Fits w s
    → Worker-Fits w (execute i s)
unfolding execute
fits-execute waiting i s go h = tt
fits-execute gathering i s go h = is_empty_snoc s.queue _
fits-execute ended i s go h = absurd (cc)
fits-execute (executing pending) i s go h = h

fits-stop : (w : Worker) (s : Batching) → Worker-Fits w s → Worker-Fits w (request_stop s)
unfolding request_stop
fits-stop waiting s h = tt
fits-stop gathering s h = h
fits-stop ended s h = (h.0, refl)
fits-stop (executing pending) s h = h

not_empty : (queue : List PendingExecution) → 0 < length queue → is_empty queue ≡ false
unfolding is_empty
not_empty [] h = absurd (omega arith)
not_empty (p ∷ queue) h = refl

pub some_left : (queue : List PendingExecution) → is_empty queue ≡ false → 0 < length queue
unfolding is_empty
some_left [] e = absurd (cc)
some_left (p ∷ queue) e = omega arith

take_fits :
    (capacity : ℕ) (queue : List PendingExecution)
    → 2 ≤ capacity
    → is_empty queue ≡ false
    → (is_empty (take (min capacity (length queue)) queue) ≡ false)
      × (length (take (min capacity (length queue)) queue) ≤ capacity)
take_fits capacity queue h e =
    let l = length-take (min capacity (length queue)) queue in
    let some = some_left queue e in (not_empty _ (omega arith), omega arith)

module _ {Gives : List StageInput → Outcome → Type 0} where
  -- No step loses, repeats or reorders a call.
  Step-executions :
      {s t : Batching}
      → Step Gives s t
      → (new : List PendingExecution) × (executions t ≡ executions s ++ new)
  Step-executions {s} (called i go e) = (_ ∷ [], executions-execute i s)
  Step-executions {s} stops = ([], request_stop_same s)
  Step-executions {s} (wakes w go e) = ([], executions-wake s w ∙ sym (append-nil _))
  Step-executions {s} (pops w go) = ([], executions-next_batch s w ∙ sym (append-nil _))
  Step-executions {s} (runs pending o w g) =
      ([], executions-run_batch s pending o w ∙ sym (append-nil _))
  Step-executions {s} (fails_waiting w stop) =
      ([], executions-fail_pending s (rw w) ∙ sym (append-nil _))
  Step-executions {s} (fails_gathering w stop) =
      ([], executions-fail_pending s (rw w) ∙ sym (append-nil _))

  -- Whatever the threads do, the sequence of the queued calls only grows at its end, so a call keeps its
  -- place until it is answered and no answered call is answered again.
  pub Steps-executions :
      {s t : Batching}
      → Steps Gives s t
      → (new : List PendingExecution) × (executions t ≡ executions s ++ new)
  Steps-executions {s} here = ([], sym (append-nil _))
  Steps-executions {s} (later r st) =
      let (new, e) = Steps-executions r in
      let (more, f) = Step-executions st in
      (new ++ more, f ∙ ap (λ xs. xs ++ more) e ∙ append_assoc _ new more)

  -- In every step the capacity, the order of the tickets and what the worker holds are kept.
  pub Step-IsOrdered : {s t : Batching} → IsOrdered s → Step Gives s t → IsOrdered t
  unfolding execute wake next_batch run_batch request_stop fail_pending
  Step-IsOrdered {s} v (called i go e) = record {
    capacity = v.capacity;
    in_order = tickets-execute i s v.in_order;
    fits = fits-execute s.worker i s go v.fits;
  }
  Step-IsOrdered {s} v stops = record {
    capacity = v.capacity;
    in_order = v.in_order;
    fits = fits-stop s.worker s v.fits;
  }
  Step-IsOrdered {s} v (wakes w go e) = record {
    capacity = v.capacity;
    in_order = rw (executions-wake s w) v.in_order;
    fits = rw e e;
  }
  Step-IsOrdered {s} v (pops w go) = record {
    capacity = v.capacity;
    in_order = rw (executions-next_batch s w) v.in_order;
    fits =
        take_fits s.config.max_batch_size s.queue v.capacity
          (subst (λ x. Worker-Fits x s) w v.fits);
  }
  Step-IsOrdered {s} v (runs pending o w g) = record {
    capacity = v.capacity;
    in_order = rw (executions-run_batch s pending o w) v.in_order;
    fits = tt;
  }
  Step-IsOrdered {s} v (fails_waiting w stop) = record {
    capacity = v.capacity;
    in_order = rw (executions-fail_pending s (rw w)) v.in_order;
    fits = (refl, stop);
  }
  Step-IsOrdered {s} v (fails_gathering w stop) = record {
    capacity = v.capacity;
    in_order = rw (executions-fail_pending s (rw w)) v.in_order;
    fits = (refl, stop);
  }

  Steps-IsOrdered : {s t : Batching} → IsOrdered s → Steps Gives s t → IsOrdered t
  Steps-IsOrdered v here = v
  Steps-IsOrdered v (later r st) = Step-IsOrdered (Steps-IsOrdered v r) st

  -- With a capacity of two at least, in every state that the executor reaches from its start, by any
  -- calls and whatever the delegate does, the calls answered, in the batch and in the queue are in
  -- this order the calls with the tickets 0, 1, 2 and on to the last one given out; a batch is not
  -- empty and within the capacity, and a worker that has ended has left no call in the queue.
  pub Reach-IsOrdered :
      (config : ContinuousBatchingConfig) {s : Batching}
      → 2 ≤ config.max_batch_size
      → Reach Gives config s
      → IsOrdered s
  unfolding start
  Reach-IsOrdered config h r =
      Steps-IsOrdered (record { capacity = h; in_order = refl; fits = tt }) r
