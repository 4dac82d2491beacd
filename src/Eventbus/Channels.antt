-- ===== src/Eventbus/Channels.antt =====
-- internal/eventbus/bus.go, the subscribers' channels.
use kwrt_net_manager.Prelude.{
  ℕ, ◌+◌, ◌≡◌, ◌≤◌, ◌⊎◌, refl, inl, inr, Bool, true, false, ◌&&◌, not, Option, List, [], ◌∷◌, arith,
  ltb, ◌==◌, Bool-cases, and-eq-true, length, drop, length-append, if◌then◌else◌, All, All-append,
}
use kwrt_net_manager.Eventbus.{
  Event, Filter, Subscription, Bus, accepts, deliver, deliver_all, subscribe, remove_from, stop_all,
  set_filter, shut,
}

module _ {D : Type 0} where
  -- A registered channel is open and one that is not was closed once.
  pub record IsChannel (s : Subscription D) : Type 0 where
    pub bounded : length s.pending ≤ s.capacity
    pub life : ((s.registered ≡ true) × (s.closed ≡ 0)) ⊎ ((s.registered ≡ false) × (s.closed ≡ 1))

  deliver-IsChannel : (e : Event D) (s : Subscription D) → IsChannel s → IsChannel (deliver e s).0
  unfolding deliver
  deliver-IsChannel e s h = elim (Bool-cases (not s.registered)) [
    | inl gone ↦ rw gone h
    | inr here ↦ elim (Bool-cases (accepts s.filter e)) [
      | inr other ↦ rw (here, other) h
      | inl wanted ↦ elim (Bool-cases (ltb (length s.pending) s.capacity)) [
        | inl room ↦
            rw (here, wanted, room)
              (record { bounded = ground (arith, length-append s.pending (e ∷ [])); life = h.life })
        | inr full ↦ rw (here, wanted, full) h
      ]
    ]
  ]

  pub deliver_all-All :
      (e : Event D) (l : List (Subscription D))
      → All IsChannel l
      → All IsChannel (deliver_all e l).0
  unfolding deliver_all
  deliver_all-All e [] h = tt
  deliver_all-All e (s ∷ ss) h = (deliver-IsChannel e s h.0, deliver_all-All e ss h.1)

  shut-IsChannel : (s : Subscription D) → s.registered ≡ true → IsChannel s → IsChannel (shut s)
  shut-IsChannel s e h = record {
    bounded = h.bounded;
    life = elim (h.life) [ inl once ↦ inr (refl, omega (arith, once.1)) | inr done ↦ absurd (cc) ];
  }

  if-IsChannel :
      (t : Bool) (s s' : Subscription D)
      → IsChannel s
      → (t ≡ true → IsChannel s')
      → IsChannel (if t then s' else s)
  if-IsChannel true s s' h k = k refl
  if-IsChannel false s s' h k = h

  pub remove_from-All :
      (id : ℕ) (l : List (Subscription D)) → All IsChannel l → All IsChannel (remove_from id l)
  unfolding remove_from
  remove_from-All id [] h = tt
  remove_from-All id (s ∷ ss) h = (
    if-IsChannel (s.registered && s.id == id) s (shut s) h.0
        (λ e. shut-IsChannel s (and-eq-true s.registered (s.id == id) e).0 h.0),
    remove_from-All id ss h.1,
  )

  pub stop_all-All : (l : List (Subscription D)) → All IsChannel l → All IsChannel (stop_all l)
  unfolding stop_all
  stop_all-All [] h = tt
  stop_all-All (s ∷ ss) h =
      (if-IsChannel s.registered s (shut s) h.0 (λ e. shut-IsChannel s e h.0), stop_all-All ss h.1)

  pub set_filter-All :
      (id : ℕ) (f : Option Filter) (l : List (Subscription D))
      → All IsChannel l
      → All IsChannel (set_filter id f l)
  unfolding set_filter
  set_filter-All id f [] h = tt
  set_filter-All id f (s ∷ ss) h = elim (Bool-cases (s.id == id)) [
    | inl same ↦
        rw same (record { bounded = h.0.bounded; life = h.0.life }, set_filter-All id f ss h.1)
    | inr other ↦ rw other (h.0, set_filter-All id f ss h.1)
  ]

  pub subscribe-All :
      (f : Option Filter) (size : ℕ) (b : Bus D)
      → All IsChannel b.subs
      → All IsChannel (subscribe f size b).subs
  unfolding subscribe
  subscribe-All f size b h =
      All-append IsChannel b.subs _ h
        (record { bounded = omega arith; life = inl (refl, refl) }, tt)

  -- A receive by the subscriber with the id takes the first pending event.
  unfoldable pub receive : ℕ → List (Subscription D) → List (Subscription D)
  receive id [] = []
  receive id (s ∷ ss) =
      (if s.id == id then record s { pending = drop 1 s.pending } else s) ∷ receive id ss

  length-drop_one : (l : List (Event D)) → length (drop 1 l) ≤ length l
  length-drop_one [] = omega arith
  length-drop_one (x ∷ xs) = omega arith

  pub receive-All :
      (id : ℕ) (l : List (Subscription D)) → All IsChannel l → All IsChannel (receive id l)
  unfolding receive
  receive-All id [] h = tt
  receive-All id (s ∷ ss) h = elim (Bool-cases (s.id == id)) [
    | inl same ↦ rw same (
      record { bounded = omega (arith, h.0.bounded, length-drop_one s.pending); life = h.0.life },
      receive-All id ss h.1,
    )
    | inr other ↦ rw other (h.0, receive-All id ss h.1)
  ]

  -- Conservation: each matching event is pending or counted as dropped.
  abbrev pub pending_of : List (Subscription D) → ℕ
  pending_of [] = 0
  pending_of (s ∷ ss) = length s.pending + pending_of ss

  abbrev pub takers : Event D → List (Subscription D) → ℕ
  takers e [] = 0
  takers e (s ∷ ss) = (if s.registered && accepts s.filter e then 1 else 0) + takers e ss

  deliver-conserves :
      (e : Event D) (s : Subscription D)
      → length (deliver e s).0.pending + (deliver e s).1
        ≡ length s.pending + (if s.registered && accepts s.filter e then 1 else 0)
  unfolding deliver
  deliver-conserves e s = elim (Bool-cases (s.registered)) [
    | inr gone ↦ rw gone refl
    | inl here ↦ elim (Bool-cases (accepts s.filter e)) [
      | inr other ↦ rw (here, other) refl
      | inl wanted ↦ elim (Bool-cases (ltb (length s.pending) s.capacity)) [
        | inl room ↦ rw (here, wanted, room) (omega (arith, length-append s.pending (e ∷ [])))
        | inr full ↦ rw (here, wanted, full) refl
      ]
    ]
  ]

  -- Publishing loses no event silently: over all subscriptions, the events pending afterwards
  -- and those that it counts as dropped are as many as the events pending before and one for
  -- each registered subscription whose filter accepts the event.
  pub deliver_all-conserves :
      (e : Event D) (l : List (Subscription D))
      → pending_of (deliver_all e l).0 + (deliver_all e l).1 ≡ pending_of l + takers e l
  unfolding deliver_all
  deliver_all-conserves e [] = refl
  deliver_all-conserves e (s ∷ ss) =
      omega (arith, deliver-conserves e s, deliver_all-conserves e ss)
