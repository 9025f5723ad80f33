-- ===== src/PubSub/Tests.antt =====
-- Two subscribers of a topic: internal/joblet/pubsub/pubsub.go.
use joblet.Prelude.{ℕ, ◌+◌, ◌≡◌, refl, false, none, some, ok, err, contains, if◌then◌else◌}
use joblet.Prelude.Map
use joblet.PubSub.{
  PubSub, new_pub_sub, subscribe, subscribers, unsubscribe, publish, begin_publish, deliver,
  after_send, deliver_all, send_on_closed, write, close_channel,
}
use joblet.PubSub.Delivery.{pushed}
use joblet.PubSub.History.{Reach, start, next, subscribes, unsubscribes, Reach-publish}

abbrev two : PubSub ℕ
two = (subscribe (subscribe (new_pub_sub 1) "jobs").0 "jobs").0

abbrev one_left : PubSub ℕ
one_left = unsubscribe two "jobs" 1

abbrev one_left_reached : Reach one_left
one_left_reached =
    next (next (next (start 1) (subscribes "jobs")) (subscribes "jobs")) (unsubscribes "jobs" 1)

-- Each reader takes two messages while Publish waits for it.
abbrev two_taken : ℕ → ℕ
two_taken j = 2

Reach-publish_example :
    (t : PubSub ℕ) × (publish two_taken one_left "jobs" 7 ≡ ok (t, false))
    × ((j : ℕ)
        → t.channels j ≡ (elim (one_left.channels j) [
          | none ↦ none
          | some c ↦ some (
              if contains (subscribers one_left "jobs") j
              then pushed one_left.buffer_size
                  (two_taken j)
                  (record { id = one_left.message_id + 1; topic = "jobs"; payload = 7 })
                  c
              else c)
        ]))
unfolding new_pub_sub subscribe subscribers unsubscribe Map.get Map.put
Reach-publish_example = Reach-publish two_taken one_left "jobs" 7 refl one_left_reached

-- When a subscriber leaves between the moment Publish collects the subscribers and its send to that
-- subscriber, the send panics.
interrupted_publish :
    deliver_all two_taken
      (unsubscribe (begin_publish two "jobs") "jobs" 2)
      (subscribers two "jobs")
      (record { id = 3; topic = "jobs"; payload = 7 })
    ≡ err send_on_closed
unfolding new_pub_sub subscribe subscribers unsubscribe begin_publish deliver after_send deliver_all
    write close_channel Map.get Map.put
interrupted_publish = refl
