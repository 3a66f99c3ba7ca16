-- ===== src/RunManager/Invariant.antt =====
-- What holds of every run in the queue.
use Prim.Native.String.{String, len}
use lucidac_firmware.Common.{
  ℕ, ◌≡◌, refl, ◌==◌, ==_iff, Bool, true, false, not, if◌then◌else◌, List, [], ◌∷◌, Option, none,
  some, All, Bool-cases, inl, inr, subst, sym,
}
use mathlib.Core.Option.{some-injective, some-ne-none}
use lucidac_firmware.Json.{JsonApi}
use lucidac_firmware.CBlock.Config.{member}
use lucidac_firmware.Run.{Run, from_json, new, checked_id, field}
use lucidac_firmware.RunManager.{
  Queue, push, end_repetitive_runs, clear_queue, run_next, execute, process_out_of_band_handlers,
  asks, has_text, start_run,
}
use lucidac_firmware.RunManager.Traditional.{Action, Machine}

abbrev pub IsQueued : Run → Type 0
IsQueued run = (len run.id ≡ 36) × (run.state ≡ new)

all-push :
    (queue : Queue) (run : Run) → All IsQueued queue → IsQueued run → All IsQueued (push queue run)
all-push [] run h r = (r, tt)
all-push (x ∷ queue) run (hx, h) r = (hx, all-push queue run h r)

end_repetitive-All :
    (queue : Queue) → All IsQueued queue → All IsQueued (end_repetitive_runs queue).0
unfolding end_repetitive_runs
end_repetitive-All [] h = tt
end_repetitive-All (run ∷ queue) h = h

clear-All : (queue : Queue) → All IsQueued (clear_queue queue)
unfolding clear_queue
clear-All queue = tt

kept-if :
    (b : Bool) (queue other : Queue)
    → All IsQueued queue
    → All IsQueued other
    → All IsQueued (if b then other else queue)
kept-if true queue other h o = o
kept-if false queue other h o = h

module _ {F V : Type 0} (js : JsonApi F V) where
  checked_id-len : (id : String) → len (checked_id js id) ≡ 36
  checked_id-len id = elim (Bool-cases (len id == 36)) [
    | inl e ↦ rw e ((==_iff (len id) 36).0 e)
    | inr e ↦ rw e refl
  ]

  from_json-IsQueued : (json : List (String × V)) → IsQueued (from_json js json)
  unfolding from_json
  from_json-IsQueued json = (checked_id-len (js.to_text (field js "id" json)), refl)

  start_run-All :
      (queue : Queue) (msg : List (String × V))
      → All IsQueued queue
      → All IsQueued (start_run js queue msg).0
  unfolding start_run
  start_run-All queue msg h =
      refused (has_text js (member "id" msg)) (push cleared (from_json js msg))
        (all-push cleared (from_json js msg) cleared_all (from_json-IsQueued msg))
    where
      ended_queue : Queue
      ended_queue = if asks js "end_repetitive" msg then (end_repetitive_runs queue).0 else queue

      cleared : Queue
      cleared = if asks js "clear_queue" msg then clear_queue ended_queue else ended_queue

      cleared_all : All IsQueued cleared
      cleared_all =
          kept-if (asks js "clear_queue" msg) ended_queue (clear_queue ended_queue)
            (kept-if (asks js "end_repetitive" msg) queue (end_repetitive_runs queue).0 h
              (end_repetitive-All queue h))
            (clear-All ended_queue)

      refused :
          (b : Bool) (q : Queue)
          → All IsQueued q
          → All IsQueued (if◌then◌else◌ {A = Queue × ℕ} (not b) (queue, 1) (q, 0)).0
      refused true q a = a
      refused false q a = h

served-All :
    (fuel : ℕ) (queue : Queue) (m : Machine) (r : Queue × List Action)
    → All IsQueued queue
    → process_out_of_band_handlers fuel queue m ≡ some r
    → All IsQueued r.0
unfolding process_out_of_band_handlers run_next
served-All fuel [] m r h e = subst (λ x. All IsQueued x.0) (some-injective ([], []) r e) tt
served-All fuel (run ∷ queue) m r (hr, h) e = of_execution (execute fuel run m) e
  where
    after : Queue
    after = if not run.config.repetitive then queue else run ∷ queue

    of_execution :
        (o : Option (List Action))
        → elim o as (λ x. Option (Queue × List Action)) [
          | none ↦ none
          | some actions ↦ some (if not run.config.repetitive then queue else run ∷ queue, actions)
        ]
          ≡ some r
        → All IsQueued r.0
    of_execution none e = absurd (some-ne-none r (sym e))
    of_execution (some actions) e =
        subst (λ x. All IsQueued x.0) (some-injective (_, actions) r e)
          (kept-if (not run.config.repetitive) (run ∷ queue) queue (hr, h) h)

module _ {F V : Type 0} (js : JsonApi F V) where
  -- The queues that messages and the executions between them lead to.
  pub data Reachable : Queue → Type 0 where
    empty : Reachable []
    message : {q : Queue} (msg : List (String × V)) → Reachable q → Reachable (start_run js q msg).0
    served :
        {q : Queue} (fuel : ℕ) (m : Machine) (r : Queue × List Action)
        → Reachable q
        → process_out_of_band_handlers fuel q m ≡ some r
        → Reachable r.0
    stopped : {q : Queue} → Reachable q → Reachable (end_repetitive_runs q).0

  -- Every run in a queue that messages, executions and stops lead to has an identifier of 36 bytes
  -- and is in the state NEW, also a repetitive run that was executed before.
  pub reachable_queue-IsQueued : (q : Queue) → Reachable q → All IsQueued q
  reachable_queue-IsQueued _ empty = tt
  reachable_queue-IsQueued _ (message msg r) = start_run-All js _ msg (reachable_queue-IsQueued _ r)
  reachable_queue-IsQueued _ (served fuel m res r e) =
      served-All fuel _ m res (reachable_queue-IsQueued _ r) e
  reachable_queue-IsQueued _ (stopped r) = end_repetitive-All _ (reachable_queue-IsQueued _ r)
