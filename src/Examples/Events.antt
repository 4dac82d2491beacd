-- ===== src/Examples/Events.antt =====
-- internal/eventbus at a run of a few calls.
use kwrt_net_manager.Prelude.{ℕ, ◌≡◌, refl, ◌+◌, arith, codes, none, [], ◌∷◌, All}
use kwrt_net_manager.Eventbus.{
  Event, Bus, new, take_number, append, append_ring, fan_out, subscribe, remove, next_event, newer,
  since, deliver_all,
}
use kwrt_net_manager.Eventbus.Channels.{IsChannel, pending_of, takers, deliver_all-conserves}
use kwrt_net_manager.Eventbus.States.{
  Reached, made, numbered, appended, delivered, subscribed, removed, capacity_of, IsReplay,
  Reached-since, Reached-IsChannel,
}

abbrev watched : Bus ℕ
watched = subscribe none 1 (new 2)

abbrev change : Event ℕ
change = next_event watched (codes "dhcp.changed") [] 7 41

abbrev second : Event ℕ
second = next_event (take_number watched) (codes "dns.changed") [] 8 42

-- Both events have a number, and the second one comes to the ring first.
abbrev swapped : Bus ℕ
swapped = append change (append second (take_number (take_number watched)))

run : Reached 2 (second ∷ change ∷ []) [] (change ∷ second ∷ []) swapped
run =
    appended (second ∷ []) [] [] (second ∷ []) change
      (append second (take_number (take_number watched)))
      (appended [] [] (change ∷ []) [] second (take_number (take_number watched)) (
        numbered [] (change ∷ []) [] (take_number watched) (codes "dns.changed") [] 8 42 (
          numbered [] [] [] watched (codes "dhcp.changed") [] 7 41
            (subscribed [] [] [] (new 2) none 1 made))))

Reached-since_example : IsReplay (capacity_of 2) (second ∷ change ∷ []) [] swapped 0
Reached-since_example =
    Reached-since 2 (second ∷ change ∷ []) [] (change ∷ second ∷ []) swapped 0 (omega arith) run

-- A client that has read up to the second event before the first one is in the ring does not get
-- the first one any more.
first_missed :
    (since (append second (take_number (take_number watched))) 0 ≡ second ∷ [])
    × (since swapped 2 ≡ [])
unfolding since newer append append_ring take_number subscribe new
first_missed = (refl, refl)

abbrev told : Bus ℕ
told = fan_out second swapped

Reached-IsChannel_example : All IsChannel (remove 1 told).subs
Reached-IsChannel_example =
    Reached-IsChannel 2 (second ∷ change ∷ []) [] (change ∷ []) (remove 1 told) (
      removed _ _ _ told 1
        (delivered (second ∷ change ∷ []) [] (change ∷ []) [] second swapped run))

deliver_all-conserves_example :
    pending_of (deliver_all change watched.subs).0 + (deliver_all change watched.subs).1
    ≡ pending_of watched.subs + takers change watched.subs
deliver_all-conserves_example = deliver_all-conserves change watched.subs
