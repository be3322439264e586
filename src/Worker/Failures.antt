-- ===== src/Worker/Failures.antt =====
-- A turn of `Worker.run` of app/worker.py that an exception ends.
use async_job_processing_pip.Prelude.{
  ℕ, suc, ◌+◌, ◌<◌, ◌≡◌, refl, sym, ap, ◌∙◌, List, [], ◌∷◌, ◌++◌, length, arith,
}
use async_job_processing_pip.Core.Config.{Settings}
use async_job_processing_pip.Core.Errors.{Raised, ok, err}
use async_job_processing_pip.Core.Exec.{>>-ok, >>-err, >>-inv, ◌>>◌}
use async_job_processing_pip.Jobs.Handlers.{Host}
use async_job_processing_pip.Jobs.Repository.{JobRepository}
use async_job_processing_pip.Jobs.Service.{World, Run, publish_due_jobs}
use async_job_processing_pip.Queue.{JobProducer}
use async_job_processing_pip.Worker.{
  Received, Consumer, Station, Turn, on_world, on_consumer, process_message, process_messages,
  job_id_of, in_order, all_messages, after_poll, perform_turn,
}

module _ {R P C : Type 0} (repo : JobRepository R) (prod : JobProducer P) (consumer : Consumer C)
    (host : Host) (settings : Settings) (runs : ℕ → Run) where
  -- Messages and then others are one sequence.
  process_messages-append :
      (before after : List Received) (k : ℕ) (s : Station R P C) {v : Station R P C}
      → process_messages repo prod consumer host settings runs k before s ≡ (ok tt, v)
      → process_messages repo prod consumer host settings runs k (before ++ after) s
        ≡ process_messages repo prod consumer host settings runs (k + length before) after v
  unfolding process_messages
  process_messages-append [] after k s {v} h =
      let same : s ≡ v = ap (λ p. p.1) h in
      let none_yet : k + 0 ≡ k = omega arith in
      rw none_yet (ap (process_messages repo prod consumer host settings runs k after) same)
  process_messages-append (message ∷ before) after k s {v} h =
      let handle = on_world (process_message repo prod host settings (runs k) message.value) in
      let commit = on_consumer consumer.commit in
      let tail = λ (messages : List Received).
        process_messages repo prod consumer host settings runs (suc k) messages in
      let (a, t, handled, more) = >>-inv handle (commit >> tail before) s h in
      let (b, u, done, rest) = >>-inv commit (tail before) t more in
      let later = process_messages-append before after (suc k) u rest in
      let count : suc k + length before ≡ k + suc (length before) = omega arith in
      >>-ok handle (commit >> tail (before ++ after)) handled
      ∙ >>-ok commit (tail (before ++ after)) done
      ∙ later
      ∙ ap (λ n. process_messages repo prod consumer host settings runs n after v) count

  -- The message that is at fault ends the turn.
  process_messages-raised :
      (before : List Received) (message : Received) (after : List Received) (k : ℕ)
      (s : Station R P C) {v : Station R P C} {x : Raised} {w : World R P}
      → process_messages repo prod consumer host settings runs k before s ≡ (ok tt, v)
      → process_message repo prod host settings (runs (k + length before)) message.value v.world
        ≡ (err x, w)
      → process_messages repo prod consumer host settings runs k (before ++ (message ∷ after)) s
        ≡ (err x, record { world = w; consumer = v.consumer })
  unfolding process_messages on_world
  process_messages-raised before message after k s {v} {x} {w} h raised =
      process_messages-append before (message ∷ after) k s h
      ∙ >>-err
          (on_world
            (process_message repo prod host settings (runs (k + length before)) message.value))
          (on_consumer consumer.commit
            >> process_messages repo prod consumer host settings runs (suc (k + length before))
                after)
          (ap (λ p. (p.0, record { world = p.1; consumer = v.consumer })) raised)

-- A commit stores how far the consumer has polled, which is behind the last message of the poll; it does
-- not move on.
pub record CommitsPolled {C : Type 0} (consumer : Consumer C) (Offsets : Type 0) : Type 0 where
  pub position : C → Offsets
  pub committed : C → Offsets
  pub commits :
      (c : C) {c' : C}
      → consumer.commit c ≡ (ok tt, c')
      → (committed c' ≡ position c) × (position c' ≡ position c)

module _ {R P C : Type 0} (repo : JobRepository R) (prod : JobProducer P) (consumer : Consumer C)
    (host : Host) (settings : Settings) {Offsets : Type 0}
    (offsets : CommitsPolled consumer Offsets) (runs : ℕ → Run) where
  last_commit :
      (messages : List Received) (k : ℕ) (u : Station R P C) {v : Station R P C} {here : Offsets}
      → process_messages repo prod consumer host settings runs k messages u ≡ (ok tt, v)
      → (0 < length messages → offsets.committed v.consumer ≡ offsets.position u.consumer)
      → offsets.committed u.consumer ≡ here
      → offsets.position u.consumer ≡ here
      → offsets.committed v.consumer ≡ here
  unfolding process_messages
  last_commit [] k u h all committed position =
      ap (λ p. offsets.committed p.1.consumer) (sym h) ∙ committed
  last_commit (message ∷ messages) k u h all committed position = all (omega arith) ∙ position

  -- After the messages the consumer stands where it stood, and after one at least that is committed.
  process_messages-offsets :
      (messages : List Received) (k : ℕ) (s : Station R P C) {v : Station R P C}
      → process_messages repo prod consumer host settings runs k messages s ≡ (ok tt, v)
      → (offsets.position v.consumer ≡ offsets.position s.consumer)
        × (0 < length messages → offsets.committed v.consumer ≡ offsets.position s.consumer)
  unfolding process_messages on_world on_consumer
  process_messages-offsets [] k s h = (
    ap (λ p. offsets.position p.1.consumer) (sym h),
    λ some_left. absurd (omega (arith, some_left)),
  )
  process_messages-offsets (message ∷ messages) k s {v} h =
      let handle = on_world (process_message repo prod host settings (runs k) message.value) in
      let commit = on_consumer consumer.commit in
      let rest = process_messages repo prod consumer host settings runs (suc k) messages in
      let (a, t, handled, more) = >>-inv handle (commit >> rest) s h in
      let (b, u, done, later) = >>-inv commit rest t more in
      let (stays, all) = process_messages-offsets messages (suc k) u later in
      let same : t.consumer ≡ s.consumer = sym (ap (λ p. p.1.consumer) handled) in
      let stored : consumer.commit t.consumer ≡ (ok tt, u.consumer) =
        ap (λ p. (p.0, p.1.consumer)) done in
      let (first, kept) = offsets.commits t.consumer stored in
      (
        stays ∙ kept ∙ ap offsets.position same,
        λ _. last_commit messages (suc k) u later all first kept ∙ ap offsets.position same,
      )

module _ {R P C : Type 0} (repo : JobRepository R) (prod : JobProducer P) (consumer : Consumer C)
    (host : Host) (settings : Settings) (turn : Turn) (s : Station R P C)
    {records : List (List Received)} {c : C} {n : ℕ} {published : World R P}
    (polled : consumer.poll s.consumer ≡ (ok records, c))
    (due : publish_due_jobs repo prod settings turn.clock settings.worker_batch_size s.world
      ≡ (ok n, published))
    (before : List Received) (message : Received) (after : List Received)
    (ordered : in_order settings (all_messages records) ≡ before ++ (message ∷ after)) where
  abbrev pub at_start : Station R P C
  at_start = record { world = published; consumer = c }

  -- An exception at a message ends the turn, where those before it were handled: they are committed, the
  -- message itself is not, and of those after it none is handled.
  pub turn-raised :
      {v : Station R P C} {x : Raised} {w : World R P}
      → process_messages repo prod consumer host settings turn.runs 0 before at_start ≡ (ok tt, v)
      → process_message repo prod host settings (turn.runs (length before)) message.value v.world
        ≡ (err x, w)
      → perform_turn repo prod consumer host settings turn s
        ≡ (err x, record { world = w; consumer = v.consumer })
  unfolding perform_turn after_poll on_consumer on_world
  turn-raised handled raised =
      let zero_plus : 0 + length before ≡ length before = omega arith in
      rw polled (
        rw due (
          rw ordered (
            process_messages-raised repo prod consumer host settings turn.runs before message after
              0 at_start handled (rw zero_plus raised))))

  -- What it leaves committed, where a commit stores how far was polled and one message at least was
  -- handled before: the whole poll, with the message that raised and those after it, which no worker will
  -- be given again.
  pub turn-lost :
      {Offsets : Type 0} (offsets : CommitsPolled consumer Offsets) {v : Station R P C} {x : Raised}
      {w : World R P}
      → 0 < length before
      → process_messages repo prod consumer host settings turn.runs 0 before at_start ≡ (ok tt, v)
      → process_message repo prod host settings (turn.runs (length before)) message.value v.world
        ≡ (err x, w)
      → let out = perform_turn repo prod consumer host settings turn s in
        (out.0 ≡ err x) × (offsets.committed out.1.consumer ≡ offsets.position c)
  turn-lost offsets some_before handled raised =
      let out = turn-raised handled raised in
      let (_, all) =
        process_messages-offsets repo prod consumer host settings offsets turn.runs before 0
          at_start handled in
      (ap (λ p. p.0) out, ap (λ p. offsets.committed p.1.consumer) out ∙ all some_before)

  -- A value that names no job ends the worker at once where it comes first: nothing is handled and nothing
  -- committed, so the next worker is given it again.
  pub turn-malformed :
      {x : Raised}
      → before ≡ []
      → job_id_of message.value ≡ err x
      → perform_turn repo prod consumer host settings turn s ≡ (err x, at_start)
  unfolding process_messages process_message
  turn-malformed first malformed =
      let handled : process_messages repo prod consumer host settings turn.runs 0 before at_start
          ≡ (ok tt, at_start) =
        rw first refl in
      turn-raised handled (rw malformed refl)
