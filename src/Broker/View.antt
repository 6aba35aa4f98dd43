-- ===== src/Broker/View.antt =====
-- The broker as a relation between channels and subscribers.
use vortexkv.Prelude.{
  ℕ, ◌==◌, ◌≡◌, ◌∙◌, refl, sym, ap, inl, inr, Bool, true, false, not, ◌&&◌, ◌||◌, Option, none,
  some, [], ◌∷◌, Bytes, bytes_key, nat_eq, bytes_eq, bytes_eq_iff, arith, Bool-cases, if◌then◌else◌,
}
use vortexkv.Map.{Map, lookup, insert, delete, is_some, Distinct}
use vortexkv.Map.Laws.{lookup-insert, lookup-delete}
use vortexkv.Broker.{
  Broker, Subscribers, subs_or_none, subscribe, is_empty_set, unsubscribe_found, unsubscribe,
  without, unsubscribe_all,
}

abbrev pub listens_in : ℕ → Option Subscribers → Bool
listens_in sub none = false
listens_in sub (some subs) = is_some (lookup sub subs)

-- Whether a subscriber listens to a channel.
abbrev pub listens : Bytes → ℕ → Broker → Bool
listens channel sub b = listens_in sub (lookup channel b.subscribers)

in-insert :
    (s t : ℕ) (subs : Subscribers)
    → is_some (lookup t (insert s tt subs)) ≡ (s == t || is_some (lookup t subs))
in-insert s t subs =
    ap is_some (lookup-insert s t tt subs)
    ∙ elim (Bool-cases (s == t)) [ inl e ↦ rw e (unfold is_some in refl) | inr e ↦ rw e refl ]

in-delete :
    (s t : ℕ) (subs : Subscribers)
    → is_some (lookup t (delete s subs)) ≡ (not (s == t) && is_some (lookup t subs))
in-delete s t subs =
    ap is_some (lookup-delete s t subs)
    ∙ elim (Bool-cases (s == t)) [ inl e ↦ rw e (unfold is_some in refl) | inr e ↦ rw e refl ]

in-subs_or_none :
    (t : ℕ) (o : Option Subscribers) → is_some (lookup t (subs_or_none o)) ≡ listens_in t o
in-subs_or_none t none = unfold lookup is_some in refl
in-subs_or_none t (some subs) = refl

-- A set with a member is not empty.
in-empty : (t : ℕ) (subs : Subscribers) → is_empty_set subs ≡ true → is_some (lookup t subs) ≡ false
unfolding lookup is_some
in-empty t [] h = refl
in-empty t (s ∷ ss) h = absurd (ground (arith, h))

-- Who listens after a channel was given its subscribers.
listens-put :
    (c d : Bytes) (t : ℕ) (subs : Subscribers) (m : Map Bytes Subscribers)
    → listens_in t (lookup d (insert c subs m))
      ≡ (if bytes_eq c d then is_some (lookup t subs) else listens_in t (lookup d m))
listens-put c d t subs m =
    ap (listens_in t) (lookup-insert c d subs m)
    ∙ elim (Bool-cases (bytes_eq c d)) [ inl e ↦ rw e refl | inr e ↦ rw e refl ]

listens-drop :
    (c d : Bytes) (t : ℕ) (m : Map Bytes Subscribers)
    → listens_in t (lookup d (delete c m))
      ≡ (if bytes_eq c d then false else listens_in t (lookup d m))
listens-drop c d t m =
    ap (listens_in t) (lookup-delete c d m)
    ∙ elim (Bool-cases (bytes_eq c d)) [ inl e ↦ rw e refl | inr e ↦ rw e refl ]

nobody : (t : ℕ) (o : Option Subscribers) → is_some o ≡ false → listens_in t o ≡ false
unfolding is_some
nobody t none h = refl
nobody t (some subs) h = absurd (ground (arith, h))

-- An empty set for a new channel changes nobody's listening.
listens-new :
    (c d : Bytes) (t : ℕ) (m : Map Bytes Subscribers)
    → listens_in t (lookup d (if is_some (lookup c m) then m else insert c [] m))
      ≡ listens_in t (lookup d m)
listens-new c d t m = elim (Bool-cases (is_some (lookup c m))) [
  | inl known ↦ rw known refl
  | inr new ↦ rw new (
      listens-put c d t [] m ∙ elim (Bool-cases (bytes_eq c d)) [
        | inl same ↦ rw same (
            in-empty t [] refl
            ∙ sym (
                ap (λ k. listens_in t (lookup k m)) (sym ((bytes_eq_iff c d).0 same))
                ∙ nobody t (lookup c m) new))
        | inr other ↦ rw other refl
      ])
]

listens-subscribe :
    (c d : Bytes) (s t : ℕ) (b : Broker)
    → listens d t (subscribe c s b) ≡ ((bytes_eq c d && s == t) || listens d t b)
listens-subscribe c d s t b =
    let m : Map Bytes Subscribers = b.subscribers in
    let table : Map Bytes Subscribers = if is_some (lookup c m) then m else insert c [] m in
    let put : listens d t (subscribe c s b) ≡ (
        if bytes_eq c d
        then is_some (lookup t (insert s tt (subs_or_none (lookup c table))))
        else listens_in t (lookup d table)) =
      unfold subscribe in listens-put c d t (insert s tt (subs_or_none (lookup c table))) table in
    let now : is_some (lookup t (insert s tt (subs_or_none (lookup c table))))
        ≡ (s == t || listens c t b) =
      in-insert s t (subs_or_none (lookup c table))
      ∙ ap (λ x. s == t || x) (in-subs_or_none t (lookup c table) ∙ listens-new c c t m) in
    put ∙ elim (Bool-cases (bytes_eq c d)) [
      | inl same ↦ rw same (now ∙ ap (λ k. s == t || listens k t b) ((bytes_eq_iff c d).0 same))
      | inr other ↦ rw other (listens-new c d t m)
    ]

listens-unsubscribe_found :
    (c d : Bytes) (s t : ℕ) (o : Option Subscribers) (b : Broker)
    → lookup c b.subscribers ≡ o
    → listens d t (unsubscribe_found c s o b) ≡ (not (bytes_eq c d && s == t) && listens d t b)
unfolding unsubscribe_found
listens-unsubscribe_found c d s t none b h = elim (Bool-cases (bytes_eq c d)) [
  | inl same ↦
      let e : lookup d b.subscribers ≡ none =
        ap (λ k. lookup k b.subscribers) (sym ((bytes_eq_iff c d).0 same)) ∙ h in
      let nobody : listens d t b ≡ false = ap (listens_in t) e in ground (arith, nobody)
  | inr other ↦ rw other refl
]
listens-unsubscribe_found c d s t (some subs) b h =
    let m : Map Bytes Subscribers = b.subscribers in
    let left : Subscribers = delete s subs in
    let was : listens c t b ≡ is_some (lookup t subs) = ap (listens_in t) h in
    let kept : listens_in t (lookup d (if is_empty_set left then delete c m else insert c left m))
        ≡ (if bytes_eq c d then is_some (lookup t left) else listens_in t (lookup d m)) =
      elim (Bool-cases (is_empty_set left)) [
        | inl empty ↦ rw empty (
            listens-drop c d t m
            ∙ ap (λ x. if bytes_eq c d then x else listens_in t (lookup d m))
                (sym (in-empty t left empty)))
        | inr more ↦ rw more (listens-put c d t left m)
      ] in
    kept ∙ elim (Bool-cases (bytes_eq c d)) [
      | inl same ↦ rw same (
          in-delete s t subs
          ∙ ap (λ x. not (s == t) && x)
              (sym was ∙ ap (λ k. listens k t b) ((bytes_eq_iff c d).0 same)))
      | inr other ↦ rw other refl
    ]

pub lookup-without-none :
    (s : ℕ) (d : Bytes) (m : Map Bytes Subscribers)
    → lookup d m ≡ none
    → lookup d (without s m) ≡ none
unfolding lookup without
lookup-without-none s d [] h = refl
lookup-without-none s d ((c, subs) ∷ m) h = elim (Bool-cases (bytes_eq c d)) [
  | inl same ↦ absurd (ground (arith, h, same))
  | inr other ↦
      let later : lookup d (without s m) ≡ none =
        lookup-without-none s d m (ground (arith, h, other)) in
      elim (Bool-cases (is_empty_set (delete s subs))) [
        | inl empty ↦ rw empty later
        | inr more ↦ rw more (rw other later)
      ]
]

listens-without :
    (s t : ℕ) (d : Bytes) (m : Map Bytes Subscribers)
    → Distinct m
    → listens_in t (lookup d (without s m)) ≡ (not (s == t) && listens_in t (lookup d m))
unfolding lookup without
listens-without s t d [] h = ground arith
listens-without s t d ((c, subs) ∷ m) h = elim (Bool-cases (bytes_eq c d)) [
  | inl same ↦
      let gone : lookup d m ≡ none = ap (λ k. lookup k m) (sym ((bytes_eq_iff c d).0 same)) ∙ h.0 in
      let left : is_some (lookup t (delete s subs)) ≡ (not (s == t) && is_some (lookup t subs)) =
        in-delete s t subs in
      elim (Bool-cases (is_empty_set (delete s subs))) [
        | inl empty ↦
            rw (empty, same)
              (ap (listens_in t) (lookup-without-none s d m gone)
                ∙ sym (in-empty t (delete s subs) empty)
                ∙ left)
        | inr more ↦ rw more (rw same left)
      ]
  | inr other ↦
      let later = listens-without s t d m h.1 in
      elim (Bool-cases (is_empty_set (delete s subs))) [
        | inl empty ↦ rw (empty, other) later
        | inr more ↦ rw more (rw other later)
      ]
]

-- After `Subscribe`, `Unsubscribe` and, where no channel stands twice, `UnsubscribeAll`, exactly the one
-- subscriber listens, or does not, to the one channel, or to none; everything else is as before.
pub listens_lem :
    (c d : Bytes) (s t : ℕ) (b : Broker)
    → Distinct b.subscribers
    → (listens d t (subscribe c s b) ≡ ((bytes_eq c d && s == t) || listens d t b))
      × (listens d t (unsubscribe c s b) ≡ (not (bytes_eq c d && s == t) && listens d t b))
      × (listens d t (unsubscribe_all s b) ≡ (not (s == t) && listens d t b))
listens_lem c d s t b h = (
  listens-subscribe c d s t b,
  (unfold unsubscribe in listens-unsubscribe_found c d s t (lookup c b.subscribers) b refl),
  (unfold unsubscribe_all in listens-without s t d b.subscribers h),
)
