-- ===== src/Pinger/Tests.antt =====
-- The theorems on pingers at concrete times, losses and endpoints.
use submariner.Base.{
  ℕ, zero, suc, ◌+◌, String, ◌≡◌, refl, Bool, true, false, ◌||◌, Option, none, some, List, [], ◌∷◌,
  arith, ltb, str_eq, if◌then◌else◌,
}
use submariner.Base.Words.{is_negative}
use submariner.Endpoint.{family_unknown, ipv4, ipv6, NetLib, EndpointSpec}
use submariner.Pinger.{
  Statistics, zeros, new_statistics, nth, set_nth, restart, add_rtt, update, connected,
  connection_error, ping_failed, PingerState, Probe, new_probe, on_recv,
}
use submariner.Pinger.Losses.{
  Silence, packet_sent, send_failed, tally, silences, losses_since_reply,
}
use submariner.Pinger.Bounds.{IsSound, updates, updates-IsSound}
use submariner.Pinger.Controller.{Controller, new_controller, endpoint_created_or_updated}
use submariner.Pinger.Controller.Running.{Reach, begins, created_or_updated}
use submariner.Pinger.Controller.Followed.{Follows, reachable-Follows}

-- Small roots are enough here.
root : ℕ → ℕ
root n = 0

updates-IsSound_example :
    (s : Statistics) × (updates root (20 ∷ 10 ∷ 30 ∷ 40 ∷ []) (new_statistics 3) ≡ some s)
    × IsSound 1000000000 s
updates-IsSound_example =
    updates-IsSound 1000000000 3 root (omega arith) (omega arith) 20 (10 ∷ 30 ∷ 40 ∷ []) (
      (omega arith, omega arith),
      ((omega arith, omega arith), ((omega arith, omega arith), ((omega arith, omega arith), tt))),
    )

-- One reply of 3.2 s after thirty of 1 ms: the sum of the squares is beyond an `int64`, and the
-- deviation is taken from a negative number.
abbrev repeat : ℕ → List ℕ → List ℕ
repeat zero rest = rest
repeat (suc n) rest = 1000000 ∷ repeat n rest

abbrev sqr_diff_negative : Option Statistics → Bool
sqr_diff_negative none = false
sqr_diff_negative (some s) = is_negative s.sqr_diff

sqr_diff_overflows :
    sqr_diff_negative (updates root (repeat 30 (3200000000 ∷ [])) (new_statistics 40)) ≡ true
unfolding updates update restart add_rtt zeros nth set_nth root
sqr_diff_overflows = refl

abbrev fresh : PingerState
fresh = record {
  ip = "10.0.0.1";
  ping_interval = 1000000000;
  ping_timeout = 1000000000;
  max_packet_loss_count = 2;
  statistics = new_statistics 3;
  failure = none;
  connection_status = connected;
  send_errors = 0;
}

abbrev answered : PingerState × Probe
answered = (
  record fresh {
    statistics = record {
      previous_rtts = 7 ∷ 0 ∷ 0 ∷ [];
      sum = 7;
      mean = 7;
      std_dev = 0;
      last_rtt = 7;
      min_rtt = 7;
      max_rtt = 7;
      sqr_diff = 0;
      index = 1;
      size = 3;
    };
  },
  new_probe,
)

answered_lem : on_recv root 7 (fresh, new_probe) ≡ some answered
unfolding on_recv update restart add_rtt zeros nth set_nth root
answered_lem = refl

-- Three packets that are not answered and a failed send.
abbrev four_lost : List Silence
four_lost = packet_sent ∷ send_failed false ∷ send_failed true ∷ packet_sent ∷ packet_sent ∷ []

abbrev counting : Probe → Probe
counting probe = record probe { packets_sent = probe.packets_sent + 1 }

losses_since_reply_example :
    let seen = (tally four_lost (0, 0)).1 in
    ((silences counting four_lost answered).0.connection_status
      ≡ (if ltb 2 seen then connection_error else connected))
    × ((silences counting four_lost answered).0.failure
        ≡ (if ltb 2 seen then some ping_failed else none))
losses_since_reply_example =
    losses_since_reply counting (record { sent = λ probe. refl; recv = λ probe. refl }) root 7
      four_lost (fresh, new_probe) answered tt answered_lem

-- The look at the third packet finds two losses, which is the threshold; that at the fourth three.
seen_late :
    ((tally (packet_sent ∷ packet_sent ∷ packet_sent ∷ []) (0, 0)).1 ≡ 2)
    × ((tally (packet_sent ∷ packet_sent ∷ packet_sent ∷ packet_sent ∷ []) (0, 0)).1 ≡ 3)
unfolding tally
seen_late = (refl, refl)

-- One address is known here.
abbrev one_ip : NetLib
one_ip = record {
  family_of = λ t. if str_eq t "10.0.0.1" || str_eq t "10.0.0.2" then ipv4 else family_unknown;
  has_ipv4_form = λ t. true;
  ip_equal = str_eq;
}

abbrev east : String → EndpointSpec
east ip = record {
  cluster_id = "east";
  cable_name = "submariner-cable-east-1";
  health_check_ip = "";
  health_check_ips = ip ∷ [];
  hostname = "east-gw";
  subnets = [];
  private_ip = "";
  private_ips = [];
  public_ip = "";
  public_ips = [];
  nat_enabled = false;
  backend = "libreswan";
  backend_config = [];
}

abbrev nothing_known : Controller
nothing_known = record {
  supported_ip_families = ipv4 ∷ ipv6 ∷ [];
  ping_interval = 1;
  max_packet_loss_count = 5;
  pingers = [];
  next_id = 0;
  running = [];
}

abbrev moved : Reach one_ip nothing_known (
    endpoint_created_or_updated one_ip
      (east "10.0.0.2")
      (endpoint_created_or_updated one_ip (east "10.0.0.1") nothing_known))
moved = created_or_updated (east "10.0.0.2") (created_or_updated (east "10.0.0.1") begins)

nothing_known_lem : new_controller (ipv4 ∷ ipv6 ∷ []) 1 5 ≡ some nothing_known
unfolding new_controller
nothing_known_lem = refl

reachable-Follows_example : Follows one_ip (
    endpoint_created_or_updated one_ip
      (east "10.0.0.2")
      (endpoint_created_or_updated one_ip (east "10.0.0.1") nothing_known))
reachable-Follows_example =
    reachable-Follows one_ip (ipv4 ∷ ipv6 ∷ []) 1 5 nothing_known _ nothing_known_lem moved
