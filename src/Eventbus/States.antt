-- ===== src/Eventbus/States.antt =====
-- internal/eventbus/bus.go as a state machine: every state that its methods reach, with the log of
-- what was published.
use kwrt_net_manager.Prelude.{
  ℕ, ◌+◌, ◌%◌, ◌≡◌, ◌≤◌, ◌<◌, refl, sym, ap, ◌∙◌, ◌⊎◌, ◌-◌, ltb, leb, Option, List, [], ◌∷◌, ◌++◌,
  arith, Str, ◌==◌, length, length-append, if◌then◌else◌, All,
}
use kwrt_net_manager.Eventbus.{
  Event, Filter, Subscription, Bus, u64_mod, new, take_number, append, fan_out, publish, subscribe,
  remove, stop, set_filter, next_event, newer, since,
}
use kwrt_net_manager.Eventbus.Ring.{
  drop-empty, latest, append_ring-latest, Numbered, missed, latest-missed, times, times-append,
  times-newer, times-drop,
}
use kwrt_net_manager.Eventbus.Channels.{
  IsChannel, receive, deliver_all-All, remove_from-All, stop_all-All, set_filter-All, subscribe-All,
  receive-All,
}

-- A ring of no capacity gets the default.
abbrev pub capacity_of : ℕ → ℕ
capacity_of n = if n == 0 then 1024 else n

capacity_of-positive : (n : ℕ) → 1 ≤ capacity_of n
capacity_of-positive n = ground arith

module _ {D : Type 0} where
  -- The states of a bus: the events that were put into the ring, in that order, those that have a
  -- number and are not there yet, and those that are there and not delivered.
  pub data Reached (ring_cap : ℕ)
      : List (Event D) → List (Event D) → List (Event D) → Bus D → Type 0 where
    made : Reached ring_cap [] [] [] (new ring_cap)
    numbered :
        (log waiting sending : List (Event D)) (b : Bus D) (topic config_id : Str) (ts : ℕ)
        (payload : D)
        → Reached ring_cap log waiting sending b
        → Reached ring_cap log
            (next_event b topic config_id ts payload ∷ waiting)
            sending
            (take_number b)
    appended :
        (log before after sending : List (Event D)) (e : Event D) (b : Bus D)
        → Reached ring_cap log (before ++ e ∷ after) sending b
        → Reached ring_cap (log ++ e ∷ []) (before ++ after) (e ∷ sending) (append e b)
    delivered :
        (log waiting before after : List (Event D)) (e : Event D) (b : Bus D)
        → Reached ring_cap log waiting (before ++ e ∷ after) b
        → Reached ring_cap log waiting (before ++ after) (fan_out e b)
    subscribed :
        (log waiting sending : List (Event D)) (b : Bus D) (f : Option Filter) (size : ℕ)
        → Reached ring_cap log waiting sending b
        → Reached ring_cap log waiting sending (subscribe f size b)
    removed :
        (log waiting sending : List (Event D)) (b : Bus D) (id : ℕ)
        → Reached ring_cap log waiting sending b
        → Reached ring_cap log waiting sending (remove id b)
    filtered :
        (log waiting sending : List (Event D)) (b : Bus D) (id : ℕ) (f : Option Filter)
        → Reached ring_cap log waiting sending b
        → Reached ring_cap log waiting sending (record b { subs = set_filter id f b.subs })
    received :
        (log waiting sending : List (Event D)) (b : Bus D) (id : ℕ)
        → Reached ring_cap log waiting sending b
        → Reached ring_cap log waiting sending (record b { subs = receive id b.subs })
    stopped :
        (log waiting sending : List (Event D)) (b : Bus D)
        → Reached ring_cap log waiting sending b
        → Reached ring_cap log waiting sending (stop b)

  -- A publication with no other call in between is three steps.
  pub publish-Reached :
      (ring_cap : ℕ) (log waiting sending : List (Event D)) (b : Bus D) (topic config_id : Str)
      (ts : ℕ) (payload : D)
      → Reached ring_cap log waiting sending b
      → Reached ring_cap
          (log ++ next_event b topic config_id ts payload ∷ [])
          waiting
          sending
          (publish topic config_id ts payload b)
  unfolding publish
  publish-Reached n log waiting sending b topic config_id ts payload r =
      let e : Event D = next_event b topic config_id ts payload in
      delivered (log ++ e ∷ []) waiting [] sending e (append e (take_number b)) (
        appended log [] waiting sending e (take_number b)
          (numbered log waiting sending b topic config_id ts payload r))

  -- In every state that the methods of a bus reach, a channel holds no more than its capacity,
  -- a registered subscription's channel is open, and one that is not registered was closed
  -- exactly once, so nothing is sent to a closed channel and none is closed again.
  pub Reached-IsChannel :
      (ring_cap : ℕ) (log waiting sending : List (Event D)) (b : Bus D)
      → Reached ring_cap log waiting sending b
      → All IsChannel b.subs
  unfolding new take_number append fan_out subscribe remove stop
  Reached-IsChannel n _ _ _ _ made = tt
  Reached-IsChannel n _ _ _ _ (numbered log w s b t c ts p r) = Reached-IsChannel n log w s b r
  Reached-IsChannel n _ _ _ _ (appended log x y s e b r) =
      Reached-IsChannel n log (x ++ e ∷ y) s b r
  Reached-IsChannel n _ _ _ _ (delivered log w x y e b r) =
      deliver_all-All e b.subs (Reached-IsChannel n log w (x ++ e ∷ y) b r)
  Reached-IsChannel n _ _ _ _ (subscribed log w s b f size r) =
      subscribe-All f size b (Reached-IsChannel n log w s b r)
  Reached-IsChannel n _ _ _ _ (removed log w s b id r) =
      remove_from-All id b.subs (Reached-IsChannel n log w s b r)
  Reached-IsChannel n _ _ _ _ (filtered log w s b id f r) =
      set_filter-All id f b.subs (Reached-IsChannel n log w s b r)
  Reached-IsChannel n _ _ _ _ (received log w s b id r) =
      receive-All id b.subs (Reached-IsChannel n log w s b r)
  Reached-IsChannel n _ _ _ _ (stopped log w s b r) =
      stop_all-All b.subs (Reached-IsChannel n log w s b r)

  -- The ring has the last events of the log, and each number up to the counter was given to one
  -- event, in the log or on its way there.
  record Holds (cap : ℕ) (log waiting : List (Event D)) (b : Bus D) : Type 0 where
    capacity : b.ring_cap ≡ cap
    counted : b.seq ≡ length log + length waiting
    kept : b.ring ≡ latest cap log
    once :
        (m : ℕ)
        → times m log + times m waiting ≡ (if ltb 0 m then (if leb m b.seq then 1 else 0) else 0)

  -- What the ring holds does not depend on the subscriptions.
  same :
      {cap : ℕ} {log waiting : List (Event D)} {b : Bus D} {subs : List (Subscription D)}
      {id lost : ℕ}
      → Holds cap log waiting b
      → Holds cap log waiting (record b { subs = subs; next_sub_id = id; dropped = lost })
  same h = record { capacity = h.capacity; counted = h.counted; kept = h.kept; once = h.once }

  numbered-Holds :
      (cap : ℕ) (log waiting : List (Event D)) (b : Bus D) (t c : Str) (ts : ℕ) (p : D)
      → length log + length (next_event b t c ts p ∷ waiting) < u64_mod
      → Holds cap log waiting b
      → Holds cap log (next_event b t c ts p ∷ waiting) (take_number b)
  unfolding take_number times
  numbered-Holds cap log waiting b t c ts p small h =
      let number : (b.seq + 1) % u64_mod ≡ b.seq + 1 = omega (arith, h.counted, small) in
      record {
        capacity = h.capacity;
        counted = omega (arith, number, h.counted);
        kept = h.kept;
        once = λ m. (let before = h.once m in rw number (ground (arith, before)));
      }

  appended-Holds :
      (cap : ℕ) (log before after : List (Event D)) (e : Event D) (b : Bus D)
      → 1 ≤ cap
      → Holds cap log (before ++ e ∷ after) b
      → Holds cap (log ++ e ∷ []) (before ++ after) (append e b)
  unfolding append times
  appended-Holds cap log before after e b one h = record {
    capacity = h.capacity;
    counted = omega (
      arith,
      h.counted,
      length-append log (e ∷ []),
      length-append before (e ∷ after),
      length-append before after,
    );
    kept = rw (h.capacity, h.kept) (append_ring-latest cap log e one);
    once = λ m.
        (let now = h.once m in
          let all : times m (log ++ e ∷ []) + times m (before ++ after)
              ≡ times m log + times m (before ++ e ∷ after) =
            ground (
              arith,
              times-append m log (e ∷ []),
              times-append m before (e ∷ after),
              times-append m before after,
            ) in
          all ∙ now);
  }

  Reached-Holds :
      (ring_cap : ℕ) (log waiting sending : List (Event D)) (b : Bus D)
      → length log + length waiting < u64_mod
      → Reached ring_cap log waiting sending b
      → Holds (capacity_of ring_cap) log waiting b
  unfolding new fan_out subscribe remove stop times
  Reached-Holds n _ _ _ _ h made = record {
    capacity = refl;
    counted = refl;
    kept = sym (drop-empty (0 - capacity_of n));
    once = λ m. ground arith;
  }
  Reached-Holds n _ _ _ _ h (numbered log w s b t c ts p r) =
      numbered-Holds (capacity_of n) log w b t c ts p h
        (Reached-Holds n log w s b (omega (arith, h)) r)
  Reached-Holds n _ _ _ _ h (appended log x y s e b r) =
      let small : length log + length (x ++ e ∷ y) < u64_mod =
        omega (arith, h, length-append log (e ∷ []), length-append x (e ∷ y), length-append x y) in
      appended-Holds (capacity_of n) log x y e b (capacity_of-positive n)
        (Reached-Holds n log (x ++ e ∷ y) s b small r)
  Reached-Holds n _ _ _ _ h (delivered log w x y e b r) =
      same (Reached-Holds n log w (x ++ e ∷ y) b h r)
  Reached-Holds n _ _ _ _ h (subscribed log w s b f size r) = same (Reached-Holds n log w s b h r)
  Reached-Holds n _ _ _ _ h (removed log w s b id r) = same (Reached-Holds n log w s b h r)
  Reached-Holds n _ _ _ _ h (filtered log w s b id f r) = same (Reached-Holds n log w s b h r)
  Reached-Holds n _ _ _ _ h (received log w s b id r) = same (Reached-Holds n log w s b h r)
  Reached-Holds n _ _ _ _ h (stopped log w s b r) = same (Reached-Holds n log w s b h r)

  -- What `since` gives of the events behind the number `n`.
  pub record IsReplay (cap : ℕ) (log waiting : List (Event D)) (b : Bus D) (n : ℕ) : Type 0 where
    pub newest : since b n ≡ newer n (latest cap log)
    pub complete :
        length log ≤ cap → (m : ℕ) → n < m → m ≤ b.seq → times m (since b n) + times m waiting ≡ 1
    pub none_else : (m : ℕ) → (m ≤ n) ⊎ (b.seq < m) → times m (since b n) ≡ 0
    pub in_order : Numbered 1 log → since b n ≡ missed cap log n

  -- In every state that the methods of a bus reach, with the three steps of each publication
  -- interleaved with those of others in any way, and fewer than 2^64 numbers given: the events
  -- that are newer than a number n are those of the last ones put into the ring, as many as its
  -- capacity, that have a greater number, in the order in which they were put there. As long as
  -- the ring has not dropped an event, each number above n up to the counter is given once
  -- among them and the events on their way to the ring. No number up to n or above the counter
  -- is among them. If the events came to the ring in the order of their numbers, it is all of
  -- those behind the n-th, as far back as the ring's capacity goes.
  pub Reached-since :
      (ring_cap : ℕ) (log waiting sending : List (Event D)) (b : Bus D) (n : ℕ)
      → length log + length waiting < u64_mod
      → Reached ring_cap log waiting sending b
      → IsReplay (capacity_of ring_cap) log waiting b n
  unfolding since
  Reached-since ring_cap log waiting sending b n small r =
      let h = Reached-Holds ring_cap log waiting sending b small r in
      record {
        newest = ap (newer n) h.kept;
        complete = λ short m later issued.
            (let all : length log - capacity_of ring_cap ≡ 0 = omega (arith, short) in
              let one = h.once m in
              rw (h.kept, all) (ground (arith, one, later, issued, times-newer m n log)));
        none_else = λ m outside.
            (let some_times = h.once m in
              rw h.kept (
                ground (
                  arith,
                  some_times,
                  outside,
                  times-newer m n (latest (capacity_of ring_cap) log),
                  times-drop m (length log - capacity_of ring_cap) log,
                )));
        in_order =
            λ ordered. ap (newer n) h.kept ∙ latest-missed (capacity_of ring_cap) log n ordered;
      }
