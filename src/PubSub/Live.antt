-- ===== src/PubSub/Live.antt =====
-- The invariant of internal/joblet/pubsub/pubsub.go: a topic's subscribers have open channels.
use joblet.Prelude.{
  ℕ, suc, ◌≤◌, ◌≡◌, refl, sym, ◌∙◌, ap, true, false, ◌||◌, ◌&&◌, not, String, Option, some, List,
  [], ◌∷◌, ◌++◌, ◌==◌, keep, contains, Distinct, if◌then◌else◌, arith, inl, inr, Bool-cases,
  Option-cases, str_eq, eq_iff, subst, if_true, if_false, ==→eq,
}
use joblet.Prelude.Map
use joblet.PubSub.{PubSub, Channel, new_pub_sub, subscribers, write, subscribe, close_channel}

contains-snoc :
    (ids : List ℕ) (x j : ℕ) → contains (ids ++ (x ∷ [])) j ≡ (contains ids j || (x == j))
contains-snoc [] x j = ground arith
contains-snoc (i ∷ ids) x j = ground (arith, contains-snoc ids x j)

Distinct-snoc :
    (ids : List ℕ) (x : ℕ) → Distinct ids → contains ids x ≡ false → Distinct (ids ++ (x ∷ []))
Distinct-snoc [] x d n = (refl, tt)
Distinct-snoc (i ∷ ids) x d n = ground (arith, Distinct-snoc ids x, contains-snoc ids x i)

pub contains-keep :
    (ids : List ℕ) (x j : ℕ)
    → contains (keep (λ i. not (i == x)) ids) j ≡ (contains ids j && not (x == j))
contains-keep [] x j = refl
contains-keep (i ∷ ids) x j = ground (arith, contains-keep ids x j)

pub Distinct-keep : (ids : List ℕ) (x : ℕ) → Distinct ids → Distinct (keep (λ i. not (i == x)) ids)
Distinct-keep [] x d = tt
Distinct-keep (i ∷ ids) x d = ground (arith, Distinct-keep ids x, contains-keep ids x i)

module _ {T : Type 0} where
  -- Every subscriber of a topic has an open channel made for that topic, stands there once, and no
  -- channel has a number that is still to be given.
  pub record IsLive (s : PubSub T) : Type 0 where
    pub live :
        (name : String) (id : ℕ)
        → contains (subscribers s name) id ≡ true
        → (c : Channel T) × (s.channels id ≡ some c) × (c.topic_name ≡ name) × (c.is_closed ≡ false)
    pub distinct : (name : String) → Distinct (subscribers s name)
    pub numbered : (id : ℕ) (c : Channel T) → s.channels id ≡ some c → id ≤ s.message_id

  pub new_pub_sub-IsLive : (size : ℕ) → IsLive (new_pub_sub size)
  unfolding new_pub_sub subscribers Map.get
  new_pub_sub-IsLive size = record {
    live = λ name id e. absurd (ground arith);
    distinct = λ name. tt;
    numbered = λ id c e. absurd (ground arith);
  }

  pub subscribers-put :
      (s t : PubSub T) (name other : String) (ids : List ℕ)
      → t.topics ≡ Map.put s.topics name ids
      → subscribers t other ≡ (if str_eq name other then ids else subscribers s other)
  unfolding subscribers
  subscribers-put s t name other ids e =
      ground (
        arith,
        Map.get-put s.topics name other ids,
        ap (λ (m : Map.Map (List ℕ)). Map.get m other) e,
      )

  write-at :
      (f : ℕ → Option (Channel T)) (id j : ℕ) (c : Channel T)
      → write f id c j ≡ (if id == j then some c else f j)
  unfolding write
  write-at f id j c = refl

  pub close_channel-other :
      (f : ℕ → Option (Channel T)) (id j : ℕ) → (id == j) ≡ false → close_channel f id j ≡ f j
  unfolding close_channel
  close_channel-other f id j e = ground arith

  pub close_channel-some :
      (f : ℕ → Option (Channel T)) (id j : ℕ) (c : Channel T)
      → close_channel f id j ≡ some c
      → (d : Channel T) × (f j ≡ some d)
  unfolding close_channel
  close_channel-some f id j c e = elim (Option-cases (f j)) [
    | inl missing ↦ absurd (ground arith)
    | inr found ↦ found
  ]

  -- The system after a Subscribe
  opened : PubSub T → String → PubSub T
  opened s name = record s {
    topics = Map.put s.topics name (subscribers s name ++ (suc s.message_id ∷ []));
    channels =
        write s.channels (suc s.message_id)
          (record { topic_name = name; buffer = []; is_closed = false });
    message_id = suc s.message_id;
  }

  -- A number that is still to be given is in no topic.
  unused :
      (s : PubSub T) (name : String)
      → IsLive s
      → contains (subscribers s name) (suc s.message_id) ≡ false
  unused s name v = elim (Bool-cases (contains (subscribers s name) (suc s.message_id))) [
    | inr absent ↦ absent
    | inl present ↦
        let (c, found, own, running) = v.live name (suc s.message_id) present in
        absurd (omega (arith, v.numbered (suc s.message_id) c found))
  ]

  opened-IsLive : (s : PubSub T) (name : String) → IsLive s → IsLive (opened s name)
  unfolding opened
  opened-IsLive s name v = record {
    live = λ other id e. elim (Bool-cases (suc s.message_id == id)) [
      | inl new ↦
          let own : str_eq name other ≡ true =
            ground (arith, member other id, unused s other v, ==→eq (suc s.message_id) id new) in
          (made, ground (arith, at id), (eq_iff name other).0 own, refl)
      | inr old ↦
          let (c, found, own, running) = v.live other id (ground (arith, member other id)) in
          (c, ground (arith, at id), own, running)
    ];
    distinct = λ other. elim (Bool-cases (str_eq name other)) [
      | inl own ↦ subst Distinct (sym (subs other ∙ if_true _ _ own)) (
          Distinct-snoc (subscribers s name) (suc s.message_id) (v.distinct name) (unused s name v))
      | inr foreign ↦ subst Distinct (sym (subs other ∙ if_false _ _ foreign)) (v.distinct other)
    ];
    numbered = λ id c e. ground (arith, at id, v.numbered id c);
  }
    where
      made : Channel T
      made = record { topic_name = name; buffer = []; is_closed = false }

      subs :
          (other : String)
          → subscribers (opened s name) other ≡ (
              if str_eq name other
              then subscribers s name ++ (suc s.message_id ∷ [])
              else subscribers s other)
      subs other = subscribers-put s (opened s name) name other _ refl

      member :
          (other : String) (j : ℕ)
          → contains (subscribers (opened s name) other) j
            ≡ (contains (subscribers s other) j || (str_eq name other && (suc s.message_id == j)))
      member other j = elim (Bool-cases (str_eq name other)) [
        | inl own ↦
            let same = ap (subscribers s) ((eq_iff name other).0 own) in
            ap (λ l. contains l j) (subs other ∙ if_true _ _ own)
            ∙ contains-snoc (subscribers s name) (suc s.message_id) j
            ∙ ground (arith, ap (λ l. contains l j) same)
        | inr foreign ↦ ap (λ l. contains l j) (subs other ∙ if_false _ _ foreign) ∙ ground arith
      ]

      at :
          (j : ℕ)
          → (opened s name).channels j ≡ (if suc s.message_id == j then some made else s.channels j)
      at j = write-at s.channels (suc s.message_id) j made

  pub subscribe-IsLive : (s : PubSub T) (name : String) → IsLive s → IsLive (subscribe s name).0
  unfolding subscribe opened
  subscribe-IsLive s name v = elim (Bool-cases s.closed) [
    | inl shut ↦ subst IsLive (sym (ap (λ (r : PubSub T × Option ℕ). r.0) (if_true _ _ shut))) v
    | inr running ↦
        subst IsLive (sym (ap (λ (r : PubSub T × Option ℕ). r.0) (if_false _ _ running)))
          (opened-IsLive s name v)
  ]
