-- ===== src/PubSub/Leaving.antt =====
-- A subscriber that leaves: the function that Subscribe of internal/joblet/pubsub/pubsub.go returns.
use joblet.Prelude.{
  ℕ, ◌≡◌, refl, sym, ◌∙◌, ap, true, false, ◌&&◌, not, String, some, ◌==◌, keep, contains, Distinct,
  if◌then◌else◌, arith, inl, inr, Bool-cases, str_eq, eq_iff, subst, if_true, if_false, ==→eq,
}
use joblet.Prelude.Map
use joblet.PubSub.{PubSub, Channel, subscribers, close_channel, unsubscribe}
use joblet.PubSub.Live.{
  IsLive, contains-keep, Distinct-keep, subscribers-put, close_channel-other, close_channel-some,
}

module _ {T : Type 0} where
  -- The system after a subscriber leaves
  left : PubSub T → String → ℕ → PubSub T
  left s name id = record s {
    topics = Map.put s.topics name (keep (λ j. not (j == id)) (subscribers s name));
    channels = close_channel s.channels id;
  }

  left-IsLive :
      (s : PubSub T) (name : String) (id : ℕ)
      → contains (subscribers s name) id ≡ true
      → IsLive s
      → IsLive (left s name id)
  unfolding left
  left-IsLive s name id there v = record {
    live = λ other j e.
        let (c, found, own, running) = v.live other j (stays other j e) in
        (
          c,
          close_channel-other s.channels id j (apart other j e c found own) ∙ found,
          own,
          running,
        );
    distinct = λ other. elim (Bool-cases (str_eq name other)) [
      | inl own ↦
          subst Distinct (sym (subs other ∙ if_true _ _ own))
            (Distinct-keep (subscribers s name) id (v.distinct name))
      | inr foreign ↦ subst Distinct (sym (subs other ∙ if_false _ _ foreign)) (v.distinct other)
    ];
    numbered =
        λ j c e. let (d, found) = close_channel-some s.channels id j c e in v.numbered j d found;
  }
    where
      subs :
          (other : String)
          → subscribers (left s name id) other ≡ (
              if str_eq name other
              then keep (λ j. not (j == id)) (subscribers s name)
              else subscribers s other)
      subs other = subscribers-put s (left s name id) name other _ refl

      member :
          (other : String) (j : ℕ)
          → contains (subscribers (left s name id) other) j
            ≡ (contains (subscribers s other) j && not (str_eq name other && (id == j)))
      member other j = elim (Bool-cases (str_eq name other)) [
        | inl own ↦
            let same = ap (subscribers s) ((eq_iff name other).0 own) in
            ap (λ l. contains l j) (subs other ∙ if_true _ _ own)
            ∙ contains-keep (subscribers s name) id j
            ∙ ground (arith, ap (λ l. contains l j) same)
        | inr foreign ↦ ap (λ l. contains l j) (subs other ∙ if_false _ _ foreign) ∙ ground arith
      ]

      stays :
          (other : String) (j : ℕ)
          → contains (subscribers (left s name id) other) j ≡ true
          → contains (subscribers s other) j ≡ true
      stays other j e = ground (arith, member other j)

      -- A subscriber that stays is another one: it would be of the same topic.
      apart :
          (other : String) (j : ℕ)
          → contains (subscribers (left s name id) other) j ≡ true
          → (c : Channel T) → s.channels j ≡ some c
          → c.topic_name ≡ other
          → (id == j) ≡ false
      apart other j e c found own = elim (Bool-cases (id == j)) [
        | inr differ ↦ differ
        | inl same ↦
            let (d, here, named, running) = v.live name id there in
            let one : c ≡ d = ground (arith, ap s.channels (==→eq id j same)) in
            let topics_agree : str_eq name other ≡ true =
              (eq_iff name other).1
                (sym named ∙ ap (λ (x : Channel T). x.topic_name) (sym one) ∙ own) in
            absurd (ground (arith, member other j))
      ]

  pub unsubscribe-IsLive :
      (s : PubSub T) (name : String) (id : ℕ) → IsLive s → IsLive (unsubscribe s name id)
  unfolding unsubscribe left
  unsubscribe-IsLive s name id v = elim (Bool-cases (contains (subscribers s name) id)) [
    | inl there ↦ subst IsLive (sym (if_true _ _ there)) (left-IsLive s name id there v)
    | inr gone ↦ subst IsLive (sym (if_false _ _ gone)) v
  ]
