-- ===== src/Report/Delivery/Queue.antt =====
-- What becomes of the reports, in every order in which reports come, tasks start and tasks end.
use seclab_suite_protocol_si.Base.{
  Bool-cases, List, [], ap, append_assoc, arith, if◌then◌else◌, inl, inr, length, length-append,
  ltb, ltb→lt, refl, some, subst, suc, sym, zero, ℕ, ◌%◌, ◌++◌, ◌+◌, ◌<◌, ◌^◌, ◌∷◌, ◌≡◌, ◌≤◌,
}
use seclab_suite_protocol_si.Report.Delivery.{
  QueuedLog, Reporter, concurrency, idle, join_next, queue_capacity, queue_sim_log, receive, remove,
}

-- The first list is the second with some elements left out.
pub data Subsequence {A : Type 0} : List A → List A → Type 0 where
  nothing : Subsequence [] []
  keeps : {x : A} {l m : List A} → Subsequence l m → Subsequence (x ∷ l) (x ∷ m)
  skips : {x : A} {l m : List A} → Subsequence l m → Subsequence l (x ∷ m)

Subsequence-keeps_last :
    {A : Type 0} {l m : List A} (x : A)
    → Subsequence l m
    → Subsequence (l ++ (x ∷ [])) (m ++ (x ∷ []))
Subsequence-keeps_last x nothing = keeps nothing
Subsequence-keeps_last x (keeps h) = keeps (Subsequence-keeps_last x h)
Subsequence-keeps_last x (skips h) = skips (Subsequence-keeps_last x h)

Subsequence-skips_last :
    {A : Type 0} {l m : List A} (x : A) → Subsequence l m → Subsequence l (m ++ (x ∷ []))
Subsequence-skips_last x nothing = skips nothing
Subsequence-skips_last x (keeps h) = keeps (Subsequence-skips_last x h)
Subsequence-skips_last x (skips h) = skips (Subsequence-skips_last x h)

-- The reporters that are reached, with the reports that were submitted, those that were taken by a task, the
-- number of tasks that ended and the number of reports that were dropped.
pub data Reaches : List QueuedLog → List QueuedLog → ℕ → ℕ → Reporter → Type 0 where
  starts : Reaches [] [] 0 0 idle
  submits :
      {submitted taken : List QueuedLog} {ended drops : ℕ} {reporter : Reporter}
      (queued : QueuedLog)
      → Reaches submitted taken ended drops reporter
      → Reaches
          (submitted ++ (queued ∷ []))
          taken
          ended
          (if ltb (length reporter.queue) queue_capacity then drops else suc drops)
          (queue_sim_log reporter queued).0
  takes :
      {submitted taken : List QueuedLog} {ended drops : ℕ} {reporter after : Reporter}
      (queued : QueuedLog) (queue : List QueuedLog)
      → Reaches submitted taken ended drops reporter
      → reporter.queue ≡ queued ∷ queue
      → receive reporter ≡ some after
      → Reaches submitted (taken ++ (queued ∷ [])) ended drops after
  joins :
      {submitted taken : List QueuedLog} {ended drops : ℕ} {reporter after : Reporter} (i : ℕ)
      → Reaches submitted taken ended drops reporter
      → join_next reporter i ≡ some after
      → Reaches submitted taken (suc ended) drops after

-- Bounds, order and conservation.
pub record IsAccounted (submitted taken : List QueuedLog) (ended drops : ℕ) (reporter : Reporter)
    : Type 0 where
  pub queue_bounded : length reporter.queue ≤ queue_capacity
  pub requests_bounded : length reporter.requests ≤ concurrency
  pub in_order : Subsequence (taken ++ reporter.queue) submitted
  pub none_lost : length submitted ≡ length taken + length reporter.queue + drops
  pub tasks : length taken ≡ ended + length reporter.requests
  pub counted : reporter.dropped ≡ drops % 2 ^ 64

submits-IsAccounted :
    (submitted taken : List QueuedLog) (ended drops : ℕ) (reporter : Reporter) (queued : QueuedLog)
    → IsAccounted submitted taken ended drops reporter
    → IsAccounted
        (submitted ++ (queued ∷ []))
        taken
        ended
        (if ltb (length reporter.queue) queue_capacity then drops else suc drops)
        (queue_sim_log reporter queued).0
unfolding queue_sim_log
submits-IsAccounted submitted taken ended drops reporter queued h =
    let sent = length-append submitted (queued ∷ []) in
    let longer = length-append reporter.queue (queued ∷ []) in
    elim (Bool-cases (ltb (length reporter.queue) queue_capacity)) [
      | inl room ↦ rw room (record {
        queue_bounded = ground (arith, longer);
        requests_bounded = h.requests_bounded;
        in_order =
            subst (λ l. Subsequence l (submitted ++ (queued ∷ [])))
              (append_assoc taken reporter.queue (queued ∷ []))
              (Subsequence-keeps_last queued h.in_order);
        none_lost = omega (arith, h.none_lost, sent, longer);
        tasks = h.tasks;
        counted = h.counted;
      })
      | inr full ↦ rw full (record {
        queue_bounded = h.queue_bounded;
        requests_bounded = h.requests_bounded;
        in_order = Subsequence-skips_last queued h.in_order;
        none_lost = omega (arith, h.none_lost, sent);
        tasks = h.tasks;
        counted = omega (arith, h.counted);
      })
    ]

some_state : (r s : Reporter) → some r ≡ some s → r ≡ s
some_state r s e = cc

receive-eq :
    (reporter after : Reporter) (queued : QueuedLog) (queue : List QueuedLog)
    → reporter.queue ≡ queued ∷ queue
    → receive reporter ≡ some after
    → (length reporter.requests < concurrency)
      × (record reporter { queue = queue; requests = reporter.requests ++ (queued ∷ []) } ≡ after)
unfolding receive
receive-eq reporter after queued queue first step =
    elim (Bool-cases (ltb (length reporter.requests) concurrency)) [
      | inl room ↦ (ltb→lt (length reporter.requests) concurrency room, ground arith)
      | inr full ↦ ground arith
    ]

length-remove :
    {A : Type 0} (l : List A) (i : ℕ) → i < length l → suc (length (remove l i)) ≡ length l
length-remove [] i h = absurd (omega arith)
length-remove (x ∷ l) zero h = refl
length-remove (x ∷ l) (suc i) h = ap suc (length-remove l i (omega arith))

join_next-eq :
    (reporter after : Reporter) (i : ℕ)
    → join_next reporter i ≡ some after
    → (i < length reporter.requests)
      × (record reporter { requests = remove reporter.requests i } ≡ after)
unfolding join_next
join_next-eq reporter after i step = elim (Bool-cases (ltb i (length reporter.requests))) [
  | inl inside ↦ (ltb→lt i (length reporter.requests) inside, ground arith)
  | inr outside ↦ ground arith
]

takes-IsAccounted :
    (submitted taken : List QueuedLog) (ended drops : ℕ) (reporter after : Reporter)
    (queued : QueuedLog) (queue : List QueuedLog)
    → IsAccounted submitted taken ended drops reporter
    → reporter.queue ≡ queued ∷ queue
    → receive reporter ≡ some after
    → IsAccounted submitted (taken ++ (queued ∷ [])) ended drops after
takes-IsAccounted submitted taken ended drops reporter after queued queue h first step =
    let (room, made) = receive-eq reporter after queued queue first step in
    let one_more = length-append taken (queued ∷ []) in
    let busier = length-append reporter.requests (queued ∷ []) in
    let shorter = ap (λ (l : List QueuedLog). length l) first in
    subst (IsAccounted submitted (taken ++ (queued ∷ [])) ended drops) made (record {
      queue_bounded = omega (arith, h.queue_bounded, shorter);
      requests_bounded = omega (arith, busier, room);
      in_order =
          subst (λ l. Subsequence l submitted) (sym (append_assoc taken (queued ∷ []) queue))
            (subst (λ q. Subsequence (taken ++ q) submitted) first h.in_order);
      none_lost = omega (arith, h.none_lost, one_more, shorter);
      tasks = omega (arith, h.tasks, one_more, busier);
      counted = h.counted;
    })

joins-IsAccounted :
    (submitted taken : List QueuedLog) (ended drops : ℕ) (reporter after : Reporter) (i : ℕ)
    → IsAccounted submitted taken ended drops reporter
    → join_next reporter i ≡ some after
    → IsAccounted submitted taken (suc ended) drops after
joins-IsAccounted submitted taken ended drops reporter after i h step =
    let (inside, made) = join_next-eq reporter after i step in
    let fewer = length-remove reporter.requests i inside in
    subst (IsAccounted submitted taken (suc ended) drops) made (record {
      queue_bounded = h.queue_bounded;
      requests_bounded = omega (arith, h.requests_bounded, fewer);
      in_order = h.in_order;
      none_lost = h.none_lost;
      tasks = omega (arith, h.tasks, fewer);
      counted = h.counted;
    })

-- In every order of submissions, starts and ends of tasks, at most 1024 reports wait and at most 4 are being
-- sent; the reports that were taken or wait are the submitted ones in their order, with as many missing
-- as were dropped; every taken report has a task that runs or has ended; and the counter of dropped
-- reports is their number modulo 2^64.
pub Reaches-IsAccounted :
    {submitted taken : List QueuedLog} {ended drops : ℕ} {reporter : Reporter}
    → Reaches submitted taken ended drops reporter
    → IsAccounted submitted taken ended drops reporter
Reaches-IsAccounted starts = record {
  queue_bounded = omega arith;
  requests_bounded = omega arith;
  in_order = nothing;
  none_lost = refl;
  tasks = refl;
  counted = refl;
}
Reaches-IsAccounted (submits {submitted} {taken} {ended} {drops} {reporter} queued h) =
    submits-IsAccounted submitted taken ended drops reporter queued (Reaches-IsAccounted h)
Reaches-IsAccounted
      (takes {submitted} {taken} {ended} {drops} {reporter} {after} queued queue h first step) =
    takes-IsAccounted submitted taken ended drops reporter after queued queue
      (Reaches-IsAccounted h) first step
Reaches-IsAccounted (joins {submitted} {taken} {ended} {drops} {reporter} {after} i h step) =
    joins-IsAccounted submitted taken ended drops reporter after i (Reaches-IsAccounted h) step
