-- ===== src/PubSub/Delivery.antt =====
-- Publish of internal/joblet/pubsub/pubsub.go as one call: no send meets a closed channel, and every
-- subscriber of the topic with room in its buffer gets the message once.
use mathlib.Core.List.{append-nil}
use joblet.Prelude.{
  ℕ, suc, ◌≡◌, refl, sym, ◌∙◌, ap, true, false, String, none, some, List, [], ◌∷◌, ◌++◌, ok, ◌==◌,
  ltb, length, contains, Distinct, if◌then◌else◌, arith, inl, inr, Bool-cases, Option-cases,
  if_true, if_false, drop, ==→eq, ==_refl,
}
use joblet.PubSub.{
  PubSub, Channel, Message, after_send, subscribers, write, deliver, deliver_all, begin_publish,
  publish,
}
use joblet.PubSub.Live.{IsLive}

module _ {T : Type 0} where
  -- A channel after its reader took so many messages and, if there is then room, the message came
  abbrev pub pushed : ℕ → ℕ → Message T → Channel T → Channel T
  pushed size taken m c = record c {
    buffer =
        (drop taken c.buffer) ++ (if ltb (length (drop taken c.buffer)) size then m ∷ [] else []);
  }

  after_send-pushed :
      (size taken : ℕ) (m : Message T) (c : Channel T)
      → record c { buffer = after_send size taken m c.buffer } ≡ pushed size taken m c
  unfolding after_send
  after_send-pushed size taken m c = elim (Bool-cases (ltb (length (drop taken c.buffer)) size)) [
    | inl room ↦ ground (arith, room)
    | inr full ↦
        ap (λ b. record c { buffer = b })
          (if_false _ _ full
            ∙ sym (append-nil _)
            ∙ ap (λ l. drop taken c.buffer ++ l) (sym (if_false _ _ full)))
  ]

  -- The channels after an attempt to send to each of the numbers
  pub record Delivered (taken : ℕ → ℕ) (s : PubSub T) (ids : List ℕ) (m : Message T) (t : PubSub T)
      : Type 0 where
    pub same_topics : t.topics ≡ s.topics
    pub same_size : t.buffer_size ≡ s.buffer_size
    pub same_id : t.message_id ≡ s.message_id
    pub sent :
        (j : ℕ)
        → t.channels j ≡ (elim (s.channels j) [
          | none ↦ none
          | some c ↦ some (if contains ids j then pushed s.buffer_size (taken j) m c else c)
        ])

  -- The numbers all have open channels.
  abbrev pub AllOpen : PubSub T → List ℕ → Type 0
  AllOpen s ids =
      (j : ℕ)
      → contains ids j ≡ true
      → (c : Channel T) × (s.channels j ≡ some c) × (c.is_closed ≡ false)

  deliver-Delivered :
      (taken : ℕ → ℕ) (s : PubSub T) (id : ℕ) (m : Message T) (c : Channel T)
      → s.channels id ≡ some c
      → c.is_closed ≡ false
      → (t : PubSub T) × (deliver taken s id m ≡ ok t) × Delivered taken s (id ∷ []) m t
  unfolding deliver write
  deliver-Delivered taken s id m c found running = (
    record s { channels = write s.channels id (pushed s.buffer_size (taken id) m c) },
    ground (arith, after_send-pushed s.buffer_size (taken id) m c),
    record {
      same_topics = refl;
      same_size = refl;
      same_id = refl;
      sent = λ j. elim (Bool-cases (id == j)) [
        | inl same ↦ ground (arith, ap s.channels (==→eq id j same), ap taken (==→eq id j same))
        | inr other ↦ ground arith
      ];
    },
  )

  -- A send closes no channel.
  still_open :
      (taken : ℕ → ℕ) (s : PubSub T) (id : ℕ) (ids : List ℕ) (m : Message T) (u : PubSub T)
      → Delivered taken s (id ∷ []) m u
      → AllOpen s (id ∷ ids)
      → AllOpen u ids
  still_open taken s id ids m u h o j e =
      let (c, found, running) = o j (ground arith) in
      (
        if contains (id ∷ []) j then pushed s.buffer_size (taken j) m c else c,
        ground (arith, h.sent j),
        ground arith,
      )

  Delivered-trans :
      (taken : ℕ → ℕ) (s u t : PubSub T) (id : ℕ) (ids : List ℕ) (m : Message T)
      → contains ids id ≡ false
      → Delivered taken s (id ∷ []) m u
      → Delivered taken u ids m t
      → Delivered taken s (id ∷ ids) m t
  Delivered-trans taken s u t id ids m once h k = record {
    same_topics = k.same_topics ∙ h.same_topics;
    same_size = k.same_size ∙ h.same_size;
    same_id = k.same_id ∙ h.same_id;
    sent = λ j. elim (Option-cases (s.channels j)) [
      | inl missing ↦ ground (arith, h.sent j, k.sent j)
      | inr (c, found) ↦ elim (Bool-cases (id == j)) [
        | inl same ↦
            let once_j : contains ids j ≡ false =
              ap (contains ids) (sym (==→eq id j same)) ∙ once in
            ground (arith, h.sent j, k.sent j)
        | inr other ↦ ground (arith, h.sent j, k.sent j, h.same_size)
      ]
    ];
  }

  deliver_all-Delivered :
      (taken : ℕ → ℕ) (s : PubSub T) (ids : List ℕ) (m : Message T)
      → Distinct ids
      → AllOpen s ids
      → (t : PubSub T) × (deliver_all taken s ids m ≡ ok t) × Delivered taken s ids m t
  unfolding deliver_all
  deliver_all-Delivered taken s [] m d o = (
    s,
    refl,
    record { same_topics = refl; same_size = refl; same_id = refl; sent = λ j. ground arith },
  )
  deliver_all-Delivered taken s (id ∷ ids) m d o =
      let (c, found, running) = o id (ground (arith, ==_refl id)) in
      let (u, first, h) = deliver-Delivered taken s id m c found running in
      let (t, rest, k) =
        deliver_all-Delivered taken u ids m d.1 (still_open taken s id ids m u h o) in
      (t, ground arith, Delivered-trans taken s u t id ids m d.0 h k)

  pub publish-refused :
      (taken : ℕ → ℕ) (s : PubSub T) (name : String) (x : T)
      → s.closed ≡ true
      → publish taken s name x ≡ ok (s, true)
  unfolding publish
  publish-refused taken s name x shut = if_true _ _ shut

  begun-AllOpen :
      (s : PubSub T) (name : String)
      → IsLive s
      → AllOpen (begin_publish s name) (subscribers s name)
  unfolding begin_publish
  begun-AllOpen s name v j e = let (c, found, own, running) = v.live name j e in (c, found, running)

  pub publish-Delivered :
      (taken : ℕ → ℕ) (s : PubSub T) (name : String) (x : T)
      → s.closed ≡ false
      → IsLive s
      → (t : PubSub T) × (publish taken s name x ≡ ok (t, false))
        × Delivered taken
            (begin_publish s name)
            (subscribers s name)
            (record { id = suc s.message_id; topic = name; payload = x })
            t
  unfolding publish
  publish-Delivered taken s name x running v =
      let (t, done, h) =
        deliver_all-Delivered taken (begin_publish s name) (subscribers s name)
          (record { id = suc s.message_id; topic = name; payload = x }) (v.distinct name)
          (begun-AllOpen s name v) in
      (t, ground arith, h)
