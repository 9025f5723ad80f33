-- ===== src/PubSub/History.antt =====
-- The system of internal/joblet/pubsub/pubsub.go after any calls, each run to its end.
use joblet.Prelude.{
  ℕ, suc, ◌≡◌, refl, sym, ◌∙◌, ap, Bool, false, String, none, some, List, [], ◌∷◌, ok, ◌==◌,
  contains, Distinct, if◌then◌else◌, arith, inl, inr, ◌⊎◌, Bool-cases, Option-cases, str_eq, eq_iff,
  subst, if_true, if_false, ==→eq,
}
use joblet.Prelude.Map
use joblet.PubSub.{
  PubSub, Channel, Message, new_pub_sub, subscribers, write, subscribe, unsubscribe, begin_publish,
  publish, receive, subscribed, close,
}
use joblet.PubSub.Live.{
  IsLive, new_pub_sub-IsLive, subscribe-IsLive, subscribers-put, close_channel-some,
}
use joblet.PubSub.Leaving.{unsubscribe-IsLive}
use joblet.PubSub.Delivery.{Delivered, pushed, publish-Delivered, publish-refused}

module _ {T : Type 0} where
  Delivered-IsLive :
      (taken : ℕ → ℕ) (s t : PubSub T) (name : String) (m : Message T)
      → Delivered taken (begin_publish s name) (subscribers s name) m t
      → IsLive s
      → IsLive t
  unfolding begin_publish
  Delivered-IsLive taken s t name m h v = record {
    live = λ other id e.
        let (c, found, own, running) =
          v.live other id (ap (λ l. contains l id) (sym (subs other)) ∙ e) in
        (
          if contains (subscribers s name) id then pushed s.buffer_size (taken id) m c else c,
          ground (arith, h.sent id),
          ground arith,
          ground arith,
        );
    distinct = λ other. subst Distinct (sym (subs other)) (v.distinct other);
    numbered = λ id c e. elim (Option-cases (s.channels id)) [
      | inl missing ↦ absurd (ground (arith, h.sent id))
      | inr (d, found) ↦ omega (arith, v.numbered id d found, h.same_id)
    ];
  }
    where
      subs : (other : String) → subscribers t other ≡ subscribers s other
      subs other = elim (Bool-cases (str_eq name other)) [
        | inl own ↦
            subscribers-put s t name other (subscribers s name) h.same_topics
            ∙ if_true _ _ own
            ∙ ap (subscribers s) ((eq_iff name other).0 own)
        | inr foreign ↦
            subscribers-put s t name other (subscribers s name) h.same_topics ∙ if_false _ _ foreign
      ]

  publish-IsLive :
      (taken : ℕ → ℕ) (s t : PubSub T) (name : String) (x : T) (refused : Bool)
      → publish taken s name x ≡ ok (t, refused)
      → IsLive s
      → IsLive t
  publish-IsLive taken s t name x refused e v = elim (Bool-cases s.closed) [
    | inl shut ↦
        let kept = publish-refused taken s name x shut in
        let same : s ≡ t = ground arith in subst IsLive same v
    | inr running ↦
        let (u, done, h) = publish-Delivered taken s name x running v in
        let same : u ≡ t = ground arith in subst IsLive same (Delivered-IsLive taken s u name _ h v)
  ]

  -- A message out of a channel with a first message
  emptied-IsLive :
      (s : PubSub T) (id : ℕ) (c : Channel T) (rest : List (Message T))
      → s.channels id ≡ some c
      → IsLive s
      → IsLive (record s { channels = write s.channels id (record c { buffer = rest }) })
  unfolding write subscribers
  emptied-IsLive s id c rest found v = record {
    live = λ other j e. elim (Bool-cases (id == j)) [
      | inl same ↦
          let (d, here, own, running) = v.live other j e in
          (
            record c { buffer = rest },
            ground arith,
            ground (arith, ap s.channels (==→eq id j same)),
            ground (arith, ap s.channels (==→eq id j same)),
          )
      | inr differ ↦
          let (d, here, own, running) = v.live other j e in (d, ground arith, own, running)
    ];
    distinct = v.distinct;
    numbered = λ j d e. elim (Bool-cases (id == j)) [
      | inl same ↦ v.numbered j c (ap s.channels (sym (==→eq id j same)) ∙ found)
      | inr differ ↦ v.numbered j d (ground arith)
    ];
  }

  -- A receive takes a message out of a channel that has one, and does nothing else.
  receive-cases :
      (s : PubSub T) (id : ℕ)
      → ((receive s id).0 ≡ s)
        ⊎ ((c : Channel T) × (rest : List (Message T)) × (s.channels id ≡ some c)
            × ((receive s id).0
                ≡ record s { channels = write s.channels id (record c { buffer = rest }) }))
  unfolding receive
  receive-cases s id = elim (Option-cases (s.channels id)) [
    | inl missing ↦ inl (ground arith)
    | inr (c, found) ↦ by_buffer c found c.buffer refl
  ]
    where
      by_buffer :
          (c : Channel T)
          → s.channels id ≡ some c
          → (b : List (Message T)) → c.buffer ≡ b
          → ((receive s id).0 ≡ s)
            ⊎ ((c : Channel T) × (rest : List (Message T)) × (s.channels id ≡ some c)
                × ((receive s id).0
                    ≡ record s { channels = write s.channels id (record c { buffer = rest }) }))
      by_buffer c found [] e = inl (ground arith)
      by_buffer c found (m ∷ rest) e = inr (c, rest, found, ground arith)

  receive-IsLive : (s : PubSub T) (id : ℕ) → IsLive s → IsLive (receive s id).0
  receive-IsLive s id v = elim (receive-cases s id) [
    | inl same ↦ subst IsLive (sym same) v
    | inr (c, rest, found, e) ↦ subst IsLive (sym e) (emptied-IsLive s id c rest found v)
  ]

  close-IsLive : (s : PubSub T) → IsLive s → IsLive (close s)
  unfolding close subscribers Map.get
  close-IsLive s v = elim (Bool-cases s.closed) [
    | inl shut ↦ subst IsLive (sym (if_true _ _ shut)) v
    | inr running ↦ subst IsLive (sym (if_false _ _ running)) (record {
      live = λ other j e. absurd (ground arith);
      distinct = λ other. tt;
      numbered = λ j d e. elim (Bool-cases (subscribed s.topics j)) [
        | inl there ↦
            let (c, found) = close_channel-some s.channels j j d (ground arith) in
            v.numbered j c found
        | inr none_there ↦ v.numbered j d (ground arith)
      ];
    })
  ]

  -- The calls, each run to its end
  pub data Step (s : PubSub T) : PubSub T → Type 0 where
    subscribes : (name : String) → Step s (subscribe s name).0
    unsubscribes : (name : String) (id : ℕ) → Step s (unsubscribe s name id)
    publishes :
        (taken : ℕ → ℕ) (name : String) (x : T) (t : PubSub T) (refused : Bool)
        → publish taken s name x ≡ ok (t, refused)
        → Step s t
    receives : (id : ℕ) → Step s (receive s id).0
    closes : Step s (close s)

  pub data Reach : PubSub T → Type 0 where
    start : (size : ℕ) → Reach (new_pub_sub size)
    next : {s t : PubSub T} → Reach s → Step s t → Reach t

  Step-IsLive : {s t : PubSub T} → Step s t → IsLive s → IsLive t
  Step-IsLive {s} (subscribes name) v = subscribe-IsLive s name v
  Step-IsLive {s} (unsubscribes name id) v = unsubscribe-IsLive s name id v
  Step-IsLive {s} (publishes taken name x t refused e) v =
      publish-IsLive taken s t name x refused e v
  Step-IsLive {s} (receives id) v = receive-IsLive s id v
  Step-IsLive {s} closes v = close-IsLive s v

  Reach-IsLive : {s : PubSub T} → Reach s → IsLive s
  Reach-IsLive (start size) = new_pub_sub-IsLive size
  Reach-IsLive (next r st) = Step-IsLive st (Reach-IsLive r)

  -- On an open system, after any calls that each ran to its end, Publish, while no other call than
  -- reads of the channels runs, returns without a panic and is not refused: from the channel of a
  -- subscriber of the topic go as many messages as its reader takes while Publish waits for it, and
  -- the new message comes to its end if its buffer then has room; every other channel stays as it was.
  pub Reach-publish :
      (taken : ℕ → ℕ) (s : PubSub T) (name : String) (x : T)
      → s.closed ≡ false
      → Reach s
      → (t : PubSub T) × (publish taken s name x ≡ ok (t, false))
        × ((j : ℕ)
            → t.channels j ≡ (elim (s.channels j) [
              | none ↦ none
              | some c ↦ some (
                  if contains (subscribers s name) j
                  then pushed s.buffer_size
                      (taken j)
                      (record { id = suc s.message_id; topic = name; payload = x })
                      c
                  else c)
            ]))
  unfolding begin_publish
  Reach-publish taken s name x running r =
      let (t, done, h) = publish-Delivered taken s name x running (Reach-IsLive r) in
      (t, done, h.sent)
