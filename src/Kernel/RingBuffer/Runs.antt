-- ===== src/Kernel/RingBuffer/Runs.antt =====
-- The ring buffer of src/ring_buffer.h over a row of calls, as its clients see it.
use liumos.Prelude.{ℕ, ◌<◌, ◌≡◌, refl, ap, ◌∙◌, List, [], ◌∷◌, length}
use liumos.Kernel.RingBuffer.{RingBuffer, new_ring_buffer, pop, push}
use liumos.Kernel.RingBuffer.Queue.{
  Represents, queue_push, queue_pop, push-Represents, pop-Represents,
}

pub data Operation (A : Type 0) : Type 0 where
  pushing : A → Operation A
  popping : Operation A

module _ {A : Type 0} (n : ℕ) (empty : A) where
  -- The values that the calls of `Pop` return.
  unfoldable pub ring_run : List (Operation A) → RingBuffer A → List A
  ring_run [] b = []
  ring_run (pushing x ∷ ops) b = ring_run ops (push n empty x b)
  ring_run (popping ∷ ops) b = (pop n empty b).1 ∷ ring_run ops (pop n empty b).0

  -- The same calls on a queue.
  unfoldable pub queue_run : List (Operation A) → List A → List A
  queue_run [] q = []
  queue_run (pushing x ∷ ops) q = queue_run ops (queue_push n empty x q)
  queue_run (popping ∷ ops) q = (queue_pop n empty q).1 ∷ queue_run ops (queue_pop n empty q).0

  run_from :
      (ops : List (Operation A)) (b : RingBuffer A) (q : List A)
      → Represents n empty b q
      → ring_run ops b ≡ queue_run ops q
  unfolding ring_run queue_run
  run_from [] b q h = refl
  run_from (pushing x ∷ ops) b q h = run_from ops _ _ (push-Represents n empty b q x h)
  run_from (popping ∷ ops) b q h =
      let (h', e) = pop-Represents n empty b q h in
      ap (λ y. y ∷ ring_run ops (pop n empty b).0) e
      ∙ ap (λ ys. (queue_pop n empty q).1 ∷ ys) (run_from ops _ _ h')

  -- From a new buffer on, whatever its array holds, any row of calls of `Push` and `Pop` returns
  -- the values that a queue returns which holds at most `n - 1` values and drops what is pushed
  -- when it is full.
  pub ring_run-queue_run :
      (elements : List A) (ops : List (Operation A))
      → length elements ≡ n
      → 0 < n
      → ring_run ops (new_ring_buffer n empty elements) ≡ queue_run ops []
  ring_run-queue_run elements ops len room =
      run_from ops _ [] (record { places = len; reader = room; writer = room; values = refl })
