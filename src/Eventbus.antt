-- ===== src/Eventbus.antt =====
-- internal/eventbus/bus.go: the event bus. A channel is its pending events with its capacity, and
-- how often it was closed. `subs` lists every subscription that was made; the map of the source
-- holds those that are registered. `Publish` makes three steps, between which other calls can run: it
-- takes a number from the counter, puts the event into the ring under the ring's lock, and delivers
-- it under the read lock of the subscriptions. Every other method is one step under a lock; a
-- delivery to one subscription does not touch another, so the map's order does not show.
pub mod Ring
pub mod Channels
pub mod States
use kwrt_net_manager.Prelude.{
  ℕ, zero, suc, ◌+◌, ◌%◌, ◌^◌, Bool, true, false, ◌&&◌, ◌||◌, not, Option, none, some, List, [],
  ◌∷◌, ◌++◌, Str, str_eq, ltb, ◌==◌, if◌then◌else◌, length, drop,
}

abbrev pub u64_mod : ℕ
u64_mod = 2 ^ 64

-- `D` is the type of the payloads.
pub record Event (D : Type 0) : Type 0 where
  pub seq : ℕ
  pub topic : Str
  pub config_id : Str
  pub ts : ℕ
  pub payload : D

pub record Filter : Type 0 where
  pub types : List Str
  pub config_ids : List Str

unfoldable pub has : List Str → Str → Bool
has [] x = false
has (y ∷ ys) x = str_eq y x || has ys x

-- An empty list of a filter lets everything pass.
abbrev pub lets_pass : List Str → Str → Bool
lets_pass [] x = true
lets_pass (y ∷ ys) x = has (y ∷ ys) x

unfoldable pub accepts : {D : Type 0} → Option Filter → Event D → Bool
accepts none e = true
accepts (some f) e = lets_pass f.types e.topic && lets_pass f.config_ids e.config_id

pub record Subscription (D : Type 0) : Type 0 where
  pub id : ℕ
  pub pending : List (Event D)
  pub capacity : ℕ
  pub filter : Option Filter
  pub registered : Bool
  pub closed : ℕ

pub record Bus (D : Type 0) : Type 0 where
  pub subs : List (Subscription D)
  pub next_sub_id : ℕ
  pub seq : ℕ
  pub ring : List (Event D)
  pub ring_cap : ℕ
  pub dropped : ℕ

module _ {D : Type 0} where
  -- A capacity of 0 or less comes here as 0.
  unfoldable pub new : ℕ → Bus D
  new ring_cap = record {
    subs = [];
    next_sub_id = 0;
    seq = 0;
    ring = [];
    ring_cap = if ring_cap == 0 then 1024 else ring_cap;
    dropped = 0;
  }

  -- A full ring moves down by one and takes the event at its end.
  unfoldable pub append_ring : ℕ → List (Event D) → Event D → List (Event D)
  append_ring cap ring e = if ltb (length ring) cap then ring ++ e ∷ [] else drop 1 ring ++ e ∷ []

  -- The send that does not block: the channel afterwards, and how many events were dropped.
  unfoldable pub deliver : Event D → Subscription D → Subscription D × ℕ
  deliver e s =
      if not s.registered || not (accepts s.filter e)
      then (s, 0)
      else if ltb (length s.pending) s.capacity
      then (record s { pending = s.pending ++ e ∷ [] }, 0)
      else (s, 1)

  unfoldable pub deliver_all : Event D → List (Subscription D) → List (Subscription D) × ℕ
  deliver_all e [] = ([], 0)
  deliver_all e (s ∷ ss) =
      let (first, lost) = deliver e s in
      let (rest, more) = deliver_all e ss in (first ∷ rest, (lost + more))

  abbrev pub next_event : Bus D → Str → Str → ℕ → D → Event D
  next_event b topic config_id ts payload = record {
    seq = (b.seq + 1) % u64_mod;
    topic = topic;
    config_id = config_id;
    ts = ts;
    payload = payload;
  }

  -- `b.seq.Add(1)`: the counter behind it.
  unfoldable pub take_number : Bus D → Bus D
  take_number b = record b { seq = (b.seq + 1) % u64_mod }

  -- `appendRing`
  unfoldable pub append : Event D → Bus D → Bus D
  append e b = record b { ring = append_ring b.ring_cap b.ring e }

  -- The loop over the subscriptions.
  unfoldable pub fan_out : Event D → Bus D → Bus D
  fan_out e b =
      let (subs, lost) = deliver_all e b.subs in
      record b { subs = subs; dropped = (b.dropped + lost) % u64_mod }

  -- `Publish` with no other call in between.
  unfoldable pub publish : Str → Str → ℕ → D → Bus D → Bus D
  publish topic config_id ts payload b =
      let e = next_event b topic config_id ts payload in fan_out e (append e (take_number b))

  -- The new subscription is the last of the list.
  unfoldable pub subscribe : Option Filter → ℕ → Bus D → Bus D
  subscribe filter buf_size b =
      let id = (b.next_sub_id + 1) % u64_mod in
      record b {
        next_sub_id = id;
        subs =
            b.subs
            ++ (record {
              id = id;
              pending = [];
              capacity = if buf_size == 0 then 64 else buf_size;
              filter = filter;
              registered = true;
              closed = 0;
            })
              ∷ [];
      }

  -- `close(s.ch)` behind `delete(b.subs, id)`
  abbrev pub shut : Subscription D → Subscription D
  shut s = record s { registered = false; closed = s.closed + 1 }

  unfoldable pub remove_from : ℕ → List (Subscription D) → List (Subscription D)
  remove_from id [] = []
  remove_from id (s ∷ ss) = (if s.registered && s.id == id then shut s else s) ∷ remove_from id ss

  unfoldable pub remove : ℕ → Bus D → Bus D
  remove id b = record b { subs = remove_from id b.subs }

  unfoldable pub stop_all : List (Subscription D) → List (Subscription D)
  stop_all [] = []
  stop_all (s ∷ ss) = (if s.registered then shut s else s) ∷ stop_all ss

  unfoldable pub stop : Bus D → Bus D
  stop b = record b { subs = stop_all b.subs }

  unfoldable pub set_filter : ℕ → Option Filter → List (Subscription D) → List (Subscription D)
  set_filter id filter [] = []
  set_filter id filter (s ∷ ss) =
      (if s.id == id then record s { filter = filter } else s) ∷ set_filter id filter ss

  unfoldable pub newer : ℕ → List (Event D) → List (Event D)
  newer since [] = []
  newer since (e ∷ es) = let rest = newer since es in if ltb since e.seq then e ∷ rest else rest

  unfoldable pub since : Bus D → ℕ → List (Event D)
  since b n = newer n b.ring
