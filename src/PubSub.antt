-- ===== src/PubSub.antt =====
-- The in-memory publish-subscribe system: internal/joblet/pubsub/pubsub.go, one call at a time. A
-- subscriber is known by the number that nextMessageID gives it, and its channel is the list of
-- messages in its buffer. Statistics, time stamps and cancelled contexts are left out.
pub mod Live
pub mod Leaving
pub mod Delivery
pub mod History
pub mod Tests
use joblet.Prelude.{
  ℕ, suc, Bool, true, false, ◌||◌, not, String, Option, none, some, List, [], ◌∷◌, ◌++◌, Result, ok,
  err, ◌==◌, ltb, length, drop, keep, contains, if◌then◌else◌,
}
use joblet.Prelude.Map.{Map}
use joblet.Prelude.Map

-- Message
pub record Message (T : Type 0) : Type 0 where
  pub id : ℕ
  pub topic : String
  pub payload : T

-- subscriber: its channel, and the topic that it was made for
pub record Channel (T : Type 0) : Type 0 where
  pub topic_name : String
  pub buffer : List (Message T)
  pub is_closed : Bool

-- memoryPubSub: the subscribers of each topic, and every channel that was made
pub record PubSub (T : Type 0) : Type 0 where
  pub topics : Map (List ℕ)
  pub channels : ℕ → Option (Channel T)
  pub buffer_size : ℕ
  pub closed : Bool
  pub message_id : ℕ

-- What ends a call other than by returning: a send on a closed channel
pub data Panic : Type 0 where
  send_on_closed : Panic

-- Is the subscriber one of a topic's?
pub subscribed : Map (List ℕ) → ℕ → Bool
subscribed [] id = false
subscribed ((_, ids) ∷ m) id = contains ids id || subscribed m id

module _ {T : Type 0} where
  -- NewPubSub with WithBufferSize; a size of 0 keeps the default.
  pub new_pub_sub : ℕ → PubSub T
  new_pub_sub size = record {
    topics = [];
    channels = λ i. none;
    buffer_size = if size == 0 then 10 else size;
    closed = false;
    message_id = 0;
  }

  -- getOrCreateTopic, as the topic's subscribers
  unfoldable pub subscribers : PubSub T → String → List ℕ
  subscribers s name = elim (Map.get s.topics name) [ none ↦ [] | some ids ↦ ids ]

  -- A write through the pointer to a subscriber
  pub write : (ℕ → Option (Channel T)) → ℕ → Channel T → ℕ → Option (Channel T)
  write channels id c j = if id == j then some c else channels j

  -- Subscribe: the subscriber's number, or none when the system is closed
  pub subscribe : PubSub T → String → PubSub T × Option ℕ
  subscribe s name = if s.closed then (s, none) else (
    record s {
      topics = Map.put s.topics name (subscribers s name ++ (suc s.message_id ∷ []));
      channels =
          write s.channels (suc s.message_id)
            (record { topic_name = name; buffer = []; is_closed = false });
      message_id = suc s.message_id;
    },
    some (suc s.message_id),
  )

  -- close(sub.channel)
  pub close_channel : (ℕ → Option (Channel T)) → ℕ → ℕ → Option (Channel T)
  close_channel channels id j = elim (channels j) [
    | none ↦ none
    | some c ↦ some (if id == j then record c { is_closed = true } else c)
  ]

  -- The function that Subscribe returns, for the topic and the subscriber of that call
  pub unsubscribe : PubSub T → String → ℕ → PubSub T
  unsubscribe s name id =
      if contains (subscribers s name) id
      then record s {
        topics = Map.put s.topics name (keep (λ j. not (j == id)) (subscribers s name));
        channels = close_channel s.channels id;
      }
      else s

  -- A buffer after the select of Publish: its reader takes so many messages before the send to it
  -- goes through or, after 100 ms without room, is given up.
  unfoldable pub after_send : ℕ → ℕ → Message T → List (Message T) → List (Message T)
  after_send size taken m b =
      if ltb (length (drop taken b)) size then drop taken b ++ (m ∷ []) else drop taken b

  -- One case of the loop that delivers; `taken` says how many messages each reader takes meanwhile.
  pub deliver : (ℕ → ℕ) → PubSub T → ℕ → Message T → Result Panic (PubSub T)
  deliver taken s id m = elim (s.channels id) [
    | none ↦ err send_on_closed
    | some c ↦
        if c.is_closed
        then err send_on_closed
        else ok (record s {
          channels =
              write s.channels id
                (record c { buffer = after_send s.buffer_size (taken id) m c.buffer });
        })
  ]

  -- The loop of Publish over the subscribers that it collected
  pub deliver_all : (ℕ → ℕ) → PubSub T → List ℕ → Message T → Result Panic (PubSub T)
  deliver_all taken s [] m = ok s
  deliver_all taken s (id ∷ ids) m = elim (deliver taken s id m) [
    | err p ↦ err p
    | ok t ↦ deliver_all taken t ids m
  ]

  -- Publish up to the loop
  pub begin_publish : PubSub T → String → PubSub T
  begin_publish s name = record s {
    topics = Map.put s.topics name (subscribers s name);
    message_id = suc s.message_id;
  }

  -- Publish, with whether it was refused
  pub publish : (ℕ → ℕ) → PubSub T → String → T → Result Panic (PubSub T × Bool)
  publish taken s name payload =
      if s.closed
      then ok (s, true)
      else (elim (deliver_all taken (begin_publish s name) (subscribers s name)
          (record { id = suc s.message_id; topic = name; payload = payload })) [
            | err p ↦ err p
            | ok t ↦ ok (t, false)
          ])

  -- A client takes the next message out of its channel.
  pub receive : PubSub T → ℕ → PubSub T × Option (Message T)
  receive s id = elim (s.channels id) [
    | none ↦ (s, none)
    | some c ↦ elim c.buffer [
      | [] ↦ (s, none)
      | m ∷ rest ↦
          (record s { channels = write s.channels id (record c { buffer = rest }) }, some m)
    ]
  ]

  -- Close
  pub close : PubSub T → PubSub T
  close s = if s.closed then s else record s {
    topics = [];
    channels = λ j. if subscribed s.topics j then close_channel s.channels j j else s.channels j;
    closed = true;
  }
