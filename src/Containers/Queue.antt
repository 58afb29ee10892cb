-- ===== src/Containers/Queue.antt =====
-- `ConcurrentQueue`: first in, first out, for every interleaving of the producers and the consumer.
use mathlib.Core.List.{append_assoc, append-nil}
use tower_main.Common.{ℕ, ◌≡◌, refl, sym, ap, ◌∙◌, Bool, true, false, List, [], ◌∷◌, ◌++◌, length}

-- A call of a producer, a call of the consumer, or an exchange of the whole queue by the consumer for a queue of its own,
-- which may hold values; the consumer then takes what it was given.
pub data Call (A : Type 0) : Type 0 where
  pushes : A → Call A
  pops : Call A
  swaps : (other : List A) → Call A

pub record Run (A : Type 0) : Type 0 where
  pub queue : List A
  pub taken : List A

module _ {A : Type 0} where
  unfoldable pub push : A → List A → List A
  push value queue = queue ++ value ∷ []

  -- The result, what `target` holds afterwards, and the queue that is left.
  unfoldable pub try_pop : A → List A → Bool × A × List A
  try_pop target [] = (false, target, [])
  try_pop target (front ∷ rest) = (true, front, rest)

  unfoldable pub empty : List A → Bool
  empty [] = true
  empty (front ∷ rest) = false

  unfoldable pub size : List A → ℕ
  size queue = length queue

  unfoldable pub clear : List A → List A
  clear queue = []

  -- The queue, and the queue of the caller.
  unfoldable pub swap : List A → List A → List A × List A
  swap queue other = (other, queue)

  taken_by : A → Bool × A × List A → Run A → Run A
  taken_by target (true, value, rest) r = record { queue = rest; taken = r.taken ++ value ∷ [] }
  taken_by target (false, value, rest) r = record r { queue = rest }

  pub step : A → Call A → Run A → Run A
  unfolding push try_pop swap taken_by
  step target (pushes value) r = record r { queue = push value r.queue }
  step target pops r = taken_by target (try_pop target r.queue) r
  step target (swaps other) r =
      let (queue, given) = swap r.queue other in record { queue = queue; taken = r.taken ++ given }

  pub run : A → List (Call A) → Run A → Run A
  unfolding step
  run target [] r = r
  run target (c ∷ cs) r = run target cs (step target c r)

  -- The values that come in, in order.
  abbrev pub pushed : List (Call A) → List A
  pushed [] = []
  pushed (pushes value ∷ cs) = value ∷ pushed cs
  pushed (pops ∷ cs) = pushed cs
  pushed (swaps other ∷ cs) = other ++ pushed cs

  abbrev pub contents : Run A → List A
  contents r = r.taken ++ r.queue

  pop-contents :
      (target : A) (queue taken : List A)
      → contents (taken_by target (try_pop target queue) (record { queue = queue; taken = taken }))
        ≡ taken ++ queue
  unfolding taken_by try_pop
  pop-contents target [] taken = refl
  pop-contents target (x ∷ xs) taken = append_assoc taken (x ∷ []) xs

  -- For every interleaving of pushes, pops and swaps with any queue: what the consumer has taken, followed by what is still
  -- queued, is what was there followed by what was pushed or swapped in, in the order of the calls: nothing is lost,
  -- doubled or overtaken.
  pub run-contents :
      (target : A) (cs : List (Call A)) (r : Run A)
      → contents (run target cs r) ≡ contents r ++ pushed cs
  unfolding run step push swap
  run-contents target [] r = sym (append-nil (contents r))
  run-contents target (pushes value ∷ cs) r =
      run-contents target cs (record r { queue = push value r.queue }) ∙ simp append_assoc
  run-contents target (pops ∷ cs) r =
      run-contents target cs (taken_by target (try_pop target r.queue) r)
      ∙ ap (λ (xs : List A). xs ++ pushed cs) (pop-contents target r.queue r.taken)
  run-contents target (swaps other ∷ cs) r =
      run-contents target cs (record { queue = other; taken = r.taken ++ r.queue })
      ∙ simp append_assoc
