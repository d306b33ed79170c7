-- ===== src/TcpService/Tests.antt =====
-- Three connections of the third loop, the first of which is closed before the last enters in its place.
use netxy.Base.{ℕ, ◌+◌, ◌*◌, ◌^◌, ◌≡◌, refl, true, some, List, [], ◌∷◌, ◌++◌, arith, get_elem?}
use netxy.TcpService.{
  Sessions, pack, index_of, make_id, on_enter, proc_data_socket_close, user_data, call, step,
  has_room, all_allowed, loop_index_of, find, new, Event, enter_event, close_event, call_event, run,
}
use netxy.TypeIds.{claim_id, increase, push_ids, set_value, reclaim_id, get_value}
use netxy.TcpService.Names.{open_socket, run-new-find}
use netxy.TcpService.Cached.{
  PacketList, CacheAct, cache_act, flush_act, cache_send, flush_list, flush_cache_packet_list,
  run_cache, for_loop, sent_to, run_cache-order,
}

abbrev some_events : List Event
some_events =
    enter_event ∷ enter_event ∷ close_event 0 ∷ enter_event ∷ call_event (2 + 99 * 2 ^ 16) ∷ []

some_events_allowed : all_allowed 2 some_events new ≡ true
unfolding all_allowed step has_room on_enter make_id pack index_of claim_id increase push_ids
    set_value reclaim_id proc_data_socket_close user_data call find get_value new
some_events_allowed = refl

run-new-find_example :
    (s : Sessions) × (run 2 some_events new ≡ some s)
    × ((c d id : ℕ) → get_elem? s.given c ≡ some id → get_elem? s.given d ≡ some id → c ≡ d)
    × ((c id : ℕ)
        → get_elem? s.given c ≡ some id
        → (loop_index_of id ≡ 2) × (find id s ≡ some (open_socket c s)))
run-new-find_example = run-new-find 2 some_events (omega arith) some_events_allowed

abbrev two_loops : List (PacketList ℕ)
two_loops = record { cached = []; posted = [] } ∷ record { cached = []; posted = [] } ∷ []

abbrev some_packets : List (CacheAct ℕ)
some_packets = cache_act 1 7 ∷ cache_act 0 8 ∷ flush_act ∷ cache_act 65537 9 ∷ []

abbrev kept_packets : List (PacketList ℕ)
kept_packets =
    record { cached = []; posted = (0, 8) ∷ [] }
    ∷ record { cached = (65537, 9) ∷ []; posted = (1, 7) ∷ [] }
    ∷ []

run_cache_packets : run_cache some_packets two_loops ≡ some kept_packets
unfolding run_cache cache_send flush_cache_packet_list flush_list loop_index_of
run_cache_packets = refl

run_cache-order_example : for_loop 1 kept_packets ≡ for_loop 1 two_loops ++ sent_to 1 some_packets
run_cache-order_example = run_cache-order some_packets 1 two_loops run_cache_packets
