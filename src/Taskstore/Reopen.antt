-- ===== src/Taskstore/Reopen.antt =====
-- The life of one task log across failures, for Append, Events and OpenTask of
-- internal/taskstore/store.go.
use go_agent_claw.Prelude.{
  ok, err, ◌≡◌, ◌≢◌, false, Option, none, some, String, arith, codes, is_blank,
}
use go_agent_claw.Taskstore.{
  Bytes, Event, Codec, Error, truncate_failed, write_failed, sync_failed, World, Faults, no_faults,
  next_event, append_event,
}

-- The failures after which the end of the log is not known.
pub data IsWriteFailure : Error → Type 0 where
  truncating : IsWriteFailure truncate_failed
  writing : IsWriteFailure write_failed
  syncing : IsWriteFailure sync_failed

-- A task that has met a write failure refuses.
refuses :
    (c : Codec) (f : Faults) (w : World) (kind : String) (payload : Option Bytes) (x : Error)
    → w.task.write_error ≡ some x
    → ((append_event c f w kind payload).0 ≡ w)
      × ((e : Event) → (append_event c f w kind payload).1 ≢ ok e)
unfolding append_event
refuses c f w kind payload x h = (ground arith, λ e. ground arith)

marks_failure :
    (c : Codec) (f : Faults) (w : World) (kind : String) (payload : Option Bytes) {x : Error}
    → IsWriteFailure x
    → (append_event c f w kind payload).1 ≡ err x
    → (append_event c f w kind payload).0.task.write_error ≡ some x
unfolding append_event
marks_failure c f w kind payload truncating h = ground arith
marks_failure c f w kind payload writing h = ground arith
marks_failure c f w kind payload syncing h = ground arith

-- After an Append that failed while it changed the log, every later Append of this task, with any
-- content and whatever the system calls do, changes nothing and reports an error.
pub append_after_failure :
    (c : Codec) (f g : Faults) (w : World) (kind kind' : String) (payload payload' : Option Bytes)
    {x : Error}
    → IsWriteFailure x
    → (append_event c f w kind payload).1 ≡ err x
    → let v = (append_event c f w kind payload).0 in
      ((append_event c g v kind' payload').0 ≡ v)
      × ((e : Event) → (append_event c g v kind' payload').1 ≢ ok e)
append_after_failure c f g w kind kind' payload payload' i h =
    refuses c g _ kind' payload' _ (marks_failure c f w kind payload i h)

-- A call that reports success ran as one without faults.
pub ok_without_faults :
    (c : Codec) (f : Faults) (w : World) (kind : String) (payload : Bytes) {e : Event}
    → (append_event c f w kind (some payload)).1 ≡ ok e
    → (append_event c f w kind (some payload) ≡ append_event c no_faults w kind (some payload))
      × (is_blank (codes kind) ≡ false)
      × (w.task.write_error ≡ none)
      × (c.marshal (next_event w.task kind payload) ≢ none)
unfolding append_event
ok_without_faults c f w kind payload h = ground arith
