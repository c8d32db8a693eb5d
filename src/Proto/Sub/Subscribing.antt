-- ===== src/Proto/Sub/Subscribing.antt =====
-- src/proto/sub.rs: what a subscriber accepts once its options have been set.
use scaproust.Prelude.{
  ℕ, ◌≡◌, ◌≢◌, ◌↔◌, ◌⊎◌, refl, sym, ap, subst, ◌∙◌, inl, inr, Bool, true, false, List, [], ◌∷◌,
  ◌++◌, String, ok, arith, Bool-cases,
}
use scaproust.Core.Message.{Message}
use scaproust.Core.Config.{ConfigOption}
use scaproust.Core.Bytes.{same_bytes, same_bytes_iff}
use scaproust.Core.Context.{World}
use scaproust.Proto.Call.{Call}
use scaproust.Proto.Sub.{Sub, step, set_option}
use scaproust.Proto.Sub.Inner.{Inner, contains, without, subscribe, unsubscribe, accept}
use scaproust.Proto.Sub.Topics.{IsTopic, accept_iff}

contains_iff : (ts : List (List ℕ)) (topic : List ℕ) → contains ts topic ≡ true ↔ IsTopic topic ts
contains_iff [] topic = (λ e. absurd (cc e), λ m. absurd m)
contains_iff (t ∷ ts) topic = (
  λ e. elim (Bool-cases (same_bytes t topic)) [
    | inl same ↦ inl ((same_bytes_iff t topic).0 same)
    | inr other ↦ inr ((contains_iff ts topic).0 (ground (arith, other, e)))
  ],
  λ m. elim m [
    | inl same ↦ (let here = (same_bytes_iff t topic).1 same in ground (arith, here))
    | inr later ↦ (let there = (contains_iff ts topic).1 later in ground (arith, there))
  ],
)

without_iff :
    (ts : List (List ℕ)) (topic x : List ℕ)
    → IsTopic x (without ts topic) ↔ (IsTopic x ts × (topic ≢ x))
without_iff [] topic x = (λ m. absurd m, λ (m, _). absurd m)
without_iff (t ∷ ts) topic x = elim (Bool-cases (same_bytes t topic)) [
  | inl same ↦
      (let known : t ≡ topic = (same_bytes_iff t topic).0 same in
        (
          λ m.
              (let (later, other) = (without_iff ts topic x).0 (rw same at m) in
                (inr later, other)),
          λ (m, other). elim m [
            | inl here ↦ absurd (other (sym known ∙ here))
            | inr later ↦ rw same ((without_iff ts topic x).1 (later, other))
          ],
        ))
  | inr differs ↦ (
    λ m. elim (keep differs m) [
      | inl here ↦
          (inl here, λ same. absurd (clash differs ((same_bytes_iff t topic).1 (here ∙ sym same))))
      | inr later ↦ (let (old, other) = (without_iff ts topic x).0 later in (inr old, other))
    ],
    λ (m, other). rw differs (elim m [
      | inl here ↦ inl here
      | inr later ↦ inr ((without_iff ts topic x).1 (later, other))
    ]),
  )
]
  where
    keep :
        same_bytes t topic ≡ false
        → IsTopic x (without (t ∷ ts) topic)
        → (t ≡ x) ⊎ IsTopic x (without ts topic)
    keep differs m = rw differs at m

    clash : {b : Bool} → b ≡ false → b ≡ true → ⊥
    clash e f = cc (sym e ∙ f)

-- After a subscription the topics are those before and the new one, after its end those before but that one.
subscribe-unsubscribe :
    (inner : Inner) (topic x : List ℕ)
    → (IsTopic x (subscribe inner topic).subscriptions
        ↔ (IsTopic x inner.subscriptions ⊎ (topic ≡ x)))
      × (IsTopic x (unsubscribe inner topic).subscriptions
          ↔ (IsTopic x inner.subscriptions × (topic ≢ x)))
unfolding subscribe unsubscribe
subscribe-unsubscribe inner topic x = (
  elim (Bool-cases (contains inner.subscriptions topic)) [
    | inl there ↦ (
      λ m. inl (rw there at m),
      λ m. rw there (elim m [
        | inl old ↦ old
        | inr same ↦
            subst (λ t. IsTopic t inner.subscriptions) same
              ((contains_iff inner.subscriptions topic).0 there)
      ]),
    )
    | inr absent ↦ (
      λ m. elim (added absent m) [ inl same ↦ inr same | inr old ↦ inl old ],
      λ m. rw absent (elim m [ inl old ↦ inr old | inr same ↦ inl same ]),
    )
  ],
  without_iff inner.subscriptions topic x,
)
  where
    added :
        contains inner.subscriptions topic ≡ false
        → IsTopic x (subscribe inner topic).subscriptions
        → (topic ≡ x) ⊎ IsTopic x inner.subscriptions
    added absent m = rw absent at m

-- A subscriber that is told of a topic accepts from then on the messages that it accepted before and
-- those whose body starts with the topic. One that is told to leave a topic accepts from then on just
-- the messages whose body starts with another of its topics.
pub set_option-accepts :
    (into_bytes : String → List ℕ) (p : Sub) (x : String) (msg : Message) (w : World)
    → ((q : Sub) × (step into_bytes p (Call.set_option (ConfigOption.subscribe x)) w ≡ ok (q, w))
        × (accept q.inner msg ≡ true ↔ (
            (accept p.inner msg ≡ true) ⊎ ((rest : List ℕ) × (msg.body ≡ into_bytes x ++ rest)))))
      × ((q : Sub) × (step into_bytes p (Call.set_option (ConfigOption.unsubscribe x)) w
            ≡ ok (q, w))
          × (accept q.inner msg ≡ true ↔ (
              (topic : List ℕ) × (rest : List ℕ) × IsTopic topic p.inner.subscriptions
              × (into_bytes x ≢ topic)
              × (msg.body ≡ topic ++ rest))))
unfolding step set_option
set_option-accepts into_bytes p x msg w = (
  (
    record p { inner = more },
    refl,
    (
      λ e.
          (let (t, rest, m, f) = (accept_iff more msg).0 e in
            elim ((subscribe-unsubscribe p.inner told t).0.0 m) [
              | inl old ↦ inl ((accept_iff p.inner msg).1 (t, rest, old, f))
              | inr same ↦ inr (rest, f ∙ ap (λ y. y ++ rest) (sym same))
            ]),
      λ h. elim h [
        | inl before ↦
            (let (t, rest, m, f) = (accept_iff p.inner msg).0 before in
              (accept_iff more msg).1
                (t, rest, (subscribe-unsubscribe p.inner told t).0.1 (inl m), f))
        | inr (rest, f) ↦
            (accept_iff more msg).1
              (told, rest, (subscribe-unsubscribe p.inner told told).0.1 (inr refl), f)
      ],
    ),
  ),
  (
    record p { inner = fewer },
    refl,
    (
      λ e.
          (let (t, rest, m, f) = (accept_iff fewer msg).0 e in
            let (old, differs) = (subscribe-unsubscribe p.inner told t).1.0 m in
            (t, rest, old, differs, f)),
      λ (t, rest, old, differs, f).
          (accept_iff fewer msg).1
            (t, rest, (subscribe-unsubscribe p.inner told t).1.1 (old, differs), f),
    ),
  ),
)
  where
    told : List ℕ
    told = into_bytes x

    more : Inner
    more = subscribe p.inner told

    fewer : Inner
    fewer = unsubscribe p.inner told
