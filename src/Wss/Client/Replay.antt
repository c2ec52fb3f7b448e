-- ===== src/Wss/Client/Replay.antt =====
-- `replayQueue` of client.go, which `runOnce` calls before it starts `writeLoop`: nothing takes from
-- the out channel while it runs.
use backupy_agent.Prelude.{
  ◌+◌, ◌≤◌, ◌<◌, ◌≡◌, refl, sym, ◌∙◌, ap, subst, Bool, false, Bool-cases, Option-cases, inl, inr,
  none, some, List, [], ◌∷◌, ◌++◌, length, take, drop, take-append, ltb, ltb→lt, lt→ltb, le→ltb,
  if◌then◌else◌, ok, err, arith, length-append, append_assoc, append-nil,
}
use backupy_agent.Prelude.Bytes.{Bytes}
use backupy_agent.Prelude.Int.{pos}
use backupy_agent.Bolt.{remove}
use backupy_agent.Queue.{Queue, IsQueue, Job}
use backupy_agent.Wss.Messages.{Envelope, Codec}
use backupy_agent.Wss.Client.{out_capacity, replay_batch}

-- How `replayQueue` ends: it returns, at the end of the jobs or as the context is done, or it waits at
-- a full channel.
pub data Replayed : Type 0 where
  finished cancelled waiting : Replayed

unfoldable pub select_done : List Bool → Bool
select_done [] = false
select_done (b ∷ bs) = b

module _ {St : Type 0} (codec : Codec) (q : Queue St) where
  -- The loop over the jobs, with the out channel's content. `cancels` is whether the select of the job
  -- finds the context done and takes that case.
  unfoldable pub replay_each :
      List Job → List Bool → List Envelope → St → Replayed × List Envelope × St
  replay_each [] cancels out disk = (finished, out, disk)
  replay_each ((run_id, raw) ∷ jobs) cancels out disk = elim (codec.unmarshal raw) [
    | none ↦ replay_each jobs cancels out (q.ack run_id disk).1
    | some env ↦
        if select_done cancels
        then (cancelled, out, disk)
        else (if ltb (length out) out_capacity
            then replay_each jobs (drop 1 cancels) (out ++ (env ∷ [])) (q.ack run_id disk).1
            else (waiting, out, disk))
  ]

  -- `replayQueue` with a queue.
  unfoldable pub replay_queue : List Bool → List Envelope → St → Replayed × List Envelope × St
  replay_queue cancels out disk = elim (q.pop (pos replay_batch) disk) [
    | err e ↦ (finished, out, disk)
    | ok jobs ↦ replay_each jobs cancels out disk
  ]

-- The envelopes in jobs, without those that do not decode, and the jobs without those run ids.
unfoldable pub decoded : Codec → List Job → List Envelope
decoded codec [] = []
decoded codec ((run_id, raw) ∷ jobs) = elim (codec.unmarshal raw) [
  | none ↦ decoded codec jobs
  | some env ↦ env ∷ decoded codec jobs
]

unfoldable pub without : List Job → List Job → List Job
without [] all = all
without ((run_id, raw) ∷ jobs) all = without jobs (remove run_id all)

module _ {St : Type 0} (codec : Codec) (q : Queue St) (run_id raw : Bytes) (jobs : List Job) where
  decoded-some :
      {env : Envelope}
      → codec.unmarshal raw ≡ some env
      → decoded codec ((run_id, raw) ∷ jobs) ≡ env ∷ decoded codec jobs
  unfolding decoded
  decoded-some h = rw (decoded, h) refl

  decoded-none :
      codec.unmarshal raw ≡ none → decoded codec ((run_id, raw) ∷ jobs) ≡ decoded codec jobs
  unfolding decoded
  decoded-none h = rw (decoded, h) refl

  replay_drops :
      (out : List Envelope) (disk : St)
      → codec.unmarshal raw ≡ none
      → replay_each codec q ((run_id, raw) ∷ jobs) [] out disk
        ≡ replay_each codec q jobs [] out (q.ack run_id disk).1
  unfolding replay_each
  replay_drops out disk h = rw (replay_each, h) refl

  replay_sends :
      (out : List Envelope) (disk : St) {env : Envelope}
      → codec.unmarshal raw ≡ some env
      → length out < out_capacity
      → replay_each codec q ((run_id, raw) ∷ jobs) [] out disk
        ≡ replay_each codec q jobs [] (out ++ (env ∷ [])) (q.ack run_id disk).1
  unfolding replay_each select_done
  replay_sends out disk h room = rw (replay_each, h, lt→ltb (length out) out_capacity room) refl

  replay_waits :
      (out : List Envelope) (disk : St) {env : Envelope}
      → codec.unmarshal raw ≡ some env
      → out_capacity ≤ length out
      → replay_each codec q ((run_id, raw) ∷ jobs) [] out disk ≡ (waiting, out, disk)
  unfolding replay_each select_done
  replay_waits out disk h full = rw (replay_each, h, le→ltb (length out) out_capacity full) refl

module _ {St : Type 0} (codec : Codec) (q : Queue St) (is_queue : IsQueue q) where
  replay_each_fits :
      (jobs : List Job) (out : List Envelope) (disk : St) (all : List Job)
      → is_queue.Holds disk all
      → length out + length (decoded codec jobs) ≤ out_capacity
      → let (r, out', disk') = replay_each codec q jobs [] out disk in
        (r ≡ finished)
        × (out' ≡ out ++ decoded codec jobs)
        × is_queue.Holds disk' (without jobs all)
  unfolding replay_each decoded without
  replay_each_fits [] out disk all holds fits = (refl, sym (append-nil out), holds)
  replay_each_fits ((run_id, raw) ∷ jobs) out disk all holds fits =
      let acked = (is_queue.ack_remove run_id disk all holds).1 in
      let disk' = (q.ack run_id disk).1 in
      elim (Option-cases (codec.unmarshal raw)) [
        | inl bad ↦
            let same = decoded-none codec q run_id raw jobs bad in
            let fits' =
              subst (λ (l : List Envelope). length out + length l ≤ out_capacity) same fits in
            rw (same, replay_drops codec q run_id raw jobs out disk bad)
              (replay_each_fits jobs out disk' (remove run_id all) acked fits')
        | inr (env, good) ↦
            let same = decoded-some codec q run_id raw jobs good in
            let fits' =
              subst (λ (l : List Envelope). length out + length l ≤ out_capacity) same fits in
            let more = length-append out (env ∷ []) in
            let rest =
              replay_each_fits jobs (out ++ (env ∷ [])) disk' (remove run_id all) acked
                (omega (arith, fits', more)) in
            rw (same, replay_sends codec q run_id raw jobs out disk good (omega (arith, fits')))
              (rest.0, rest.1 ∙ append_assoc out (env ∷ []) (decoded codec jobs), rest.2)
      ]

  replay_each_waits :
      (jobs : List Job) (out : List Envelope) (disk : St)
      → length out ≤ out_capacity
      → out_capacity < length out + length (decoded codec jobs)
      → let (r, out', disk') = replay_each codec q jobs [] out disk in
        (r ≡ waiting) × (out' ≡ take out_capacity (out ++ decoded codec jobs))
  unfolding replay_each decoded
  replay_each_waits [] out disk room over = absurd (omega (arith, room, over))
  replay_each_waits ((run_id, raw) ∷ jobs) out disk room over =
      let disk' = (q.ack run_id disk).1 in
      elim (Option-cases (codec.unmarshal raw)) [
        | inl bad ↦
            let same = decoded-none codec q run_id raw jobs bad in
            let over' =
              subst (λ (l : List Envelope). out_capacity < length out + length l) same over in
            rw (same, replay_drops codec q run_id raw jobs out disk bad)
              (replay_each_waits jobs out disk' room over')
        | inr (env, good) ↦
            let same = decoded-some codec q run_id raw jobs good in
            let over' =
              subst (λ (l : List Envelope). out_capacity < length out + length l) same over in
            let more = length-append out (env ∷ []) in
            elim (Bool-cases (ltb (length out) out_capacity)) [
              | inl fits ↦
                  let below = ltb→lt (length out) out_capacity fits in
                  let rest =
                    replay_each_waits jobs (out ++ (env ∷ [])) disk' (omega (arith, more))
                      (omega (arith, over', more)) in
                  rw (same, replay_sends codec q run_id raw jobs out disk good below)
                    (
                      rest.0,
                      rest.1
                          ∙ ap (λ l. take out_capacity l)
                              (append_assoc out (env ∷ []) (decoded codec jobs)),
                    )
              | inr full ↦
                  let at : length out ≡ out_capacity = ground arith in
                  rw (same, replay_waits codec q run_id raw jobs out disk good (omega arith))
                    (refl, sym (take-append out (env ∷ decoded codec jobs) out_capacity (sym at)))
            ]
      ]

  -- With at most 64 decodable jobs in the batch and no cancellation, `replayQueue` returns with all of
  -- them in the channel, in key order, and the batch is gone from the queue, the corrupt jobs too.
  pub replay_queue_fits :
      (disk : St) (jobs : List Job)
      → is_queue.Holds disk jobs
      → length (decoded codec (take replay_batch jobs)) ≤ out_capacity
      → let (r, out, disk') = replay_queue codec q [] [] disk in
        (r ≡ finished)
        × (out ≡ decoded codec (take replay_batch jobs))
        × is_queue.Holds disk' (without (take replay_batch jobs) jobs)
  unfolding replay_queue
  replay_queue_fits disk jobs holds fits =
      rw (replay_queue, is_queue.pop_take replay_batch disk jobs holds)
        (replay_each_fits (take replay_batch jobs) [] disk jobs holds (omega (arith, fits)))

  -- With more than that, `replayQueue` waits at the full channel, with the first 64 in it; as its
  -- caller has not yet started `writeLoop`, only the end of the context ends the wait.
  pub replay_queue_waits :
      (disk : St) (jobs : List Job)
      → is_queue.Holds disk jobs
      → out_capacity < length (decoded codec (take replay_batch jobs))
      → let (r, out, disk') = replay_queue codec q [] [] disk in
        (r ≡ waiting) × (out ≡ take out_capacity (decoded codec (take replay_batch jobs)))
  unfolding replay_queue
  replay_queue_waits disk jobs holds over =
      rw (replay_queue, is_queue.pop_take replay_batch disk jobs holds)
        (replay_each_waits (take replay_batch jobs) [] disk (omega arith) (omega (arith, over)))
