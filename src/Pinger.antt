-- ===== src/Pinger.antt =====
-- pkg/pinger: the state of the pinger of one IP (pinger.go) and its running statistics
-- (statistics.go). The probes are those of the pro-bing library, of which the model has the
-- counters and the calls.
pub mod Losses
pub mod Bounds
pub mod Controller
mod Tests
use submariner.Base.{
  ℕ, zero, suc, ◌+◌, ◌-◌, ◌*◌, ◌^◌, String, Bool, true, false, not, ◌&&◌, ◌||◌, Option, none, some,
  List, [], ◌∷◌, ltb, ◌==◌, if◌then◌else◌,
}
use submariner.Base.Words.{add_int64, sub_int64, mul_int64, div_int64, less_int64}

-- `Config`; the interval is the 64 bits of a number of nanoseconds, and zero where it is not set.
pub record Config : Type 0 where
  pub ip : String
  pub interval : ℕ
  pub timeout : ℕ
  pub max_packet_loss_count : ℕ

-- `index` and `size` are positions in the slice; the other numbers are the bits of an `int64`.
pub record Statistics : Type 0 where
  pub previous_rtts : List ℕ
  pub sum : ℕ
  pub mean : ℕ
  pub std_dev : ℕ
  pub last_rtt : ℕ
  pub min_rtt : ℕ
  pub max_rtt : ℕ
  pub sqr_diff : ℕ
  pub index : ℕ
  pub size : ℕ

-- `previousRtts: make([]int64, size)`
unfoldable pub zeros : ℕ → List ℕ
zeros zero = []
zeros (suc n) = 0 ∷ zeros n

abbrev pub new_statistics : ℕ → Statistics
new_statistics size = record {
  previous_rtts = zeros size;
  sum = 0;
  mean = 0;
  std_dev = 0;
  last_rtt = 0;
  min_rtt = 0;
  max_rtt = 0;
  sqr_diff = 0;
  index = 0;
  size = size;
}

-- `previousRtts[i]`, which panics out of range.
unfoldable pub nth : ℕ → List ℕ → Option ℕ
nth i [] = none
nth zero (x ∷ xs) = some x
nth (suc i) (x ∷ xs) = nth i xs

unfoldable pub set_nth : ℕ → ℕ → List ℕ → Option (List ℕ)
set_nth i v [] = none
set_nth zero v (x ∷ xs) = some (v ∷ xs)
set_nth (suc i) v (x ∷ xs) = elim (set_nth i v xs) [ none ↦ none | some rest ↦ some (x ∷ rest) ]

abbrev pub square_from : ℕ → ℕ → ℕ
square_from mean rtt = mul_int64 (sub_int64 rtt mean) (sub_int64 rtt mean)

-- The slice is full: the last two round-trip times become the first ones.
abbrev pub restarted : Statistics → ℕ → ℕ → List ℕ → Statistics
restarted s a b previous =
    let sum = add_int64 a b in
    let mean = div_int64 sum 2 in
    record s {
      index = 2;
      previous_rtts = previous;
      sum = sum;
      mean = mean;
      sqr_diff = add_int64 (square_from mean a) (square_from mean b);
    }

-- Assignments to the slice, one after the other; `none` is a panic.
abbrev pub set_first : ℕ → ℕ → List ℕ → Option (List ℕ)
set_first a b previous = elim (set_nth 0 a previous) [ none ↦ none | some one ↦ set_nth 1 b one ]

-- From a slice of fewer than two the index is negative.
unfoldable pub restart : Statistics → Option Statistics
restart s = if ltb s.size 2 then none else elim (nth (s.size - 2) s.previous_rtts) [
  | none ↦ none
  | some a ↦ elim (nth (s.size - 1) s.previous_rtts) [
    | none ↦ none
    | some b ↦ elim (set_first a b s.previous_rtts) [
      | none ↦ none
      | some previous ↦ some (restarted s a b previous)
    ]
  ]
]

abbrev pub restart_if_full : Statistics → Option Statistics
restart_if_full s = if s.index == s.size then restart s else some s

abbrev pub min_with : ℕ → ℕ → ℕ
min_with min_rtt rtt = if min_rtt == 0 || less_int64 rtt min_rtt then rtt else min_rtt

abbrev pub max_with : ℕ → ℕ → ℕ
max_with max_rtt rtt = if less_int64 max_rtt rtt then rtt else max_rtt

-- What the update sets besides the slice; `sqrt` stands for `int64(math.Sqrt(float64(x)))`.
abbrev pub counted : (ℕ → ℕ) → ℕ → Statistics → List ℕ → Statistics
counted sqrt rtt s previous =
    let sum = add_int64 s.sum rtt in
    let mean = div_int64 sum (s.index + 1) in
    let sqr_diff = add_int64 s.sqr_diff (mul_int64 (sub_int64 rtt s.mean) (sub_int64 rtt mean)) in
    record s {
      previous_rtts = previous;
      min_rtt = min_with s.min_rtt rtt;
      max_rtt = max_with s.max_rtt rtt;
      sum = sum;
      mean = mean;
      sqr_diff = sqr_diff;
      std_dev = sqrt (div_int64 sqr_diff (s.index + 1));
      index = s.index + 1;
    }

abbrev pub begun : ℕ → Statistics → List ℕ → Statistics
begun rtt s previous = record s {
  previous_rtts = previous;
  sum = rtt;
  sqr_diff = 0;
  min_rtt = rtt;
  max_rtt = rtt;
  mean = rtt;
  std_dev = 0;
  index = s.index + 1;
}

unfoldable pub add_rtt : (ℕ → ℕ) → ℕ → Statistics → Option Statistics
add_rtt sqrt rtt s = elim (set_nth s.index rtt s.previous_rtts) [
  | none ↦ none
  | some previous ↦
      some (if ltb 0 s.index then counted sqrt rtt s previous else begun rtt s previous)
]

-- `statistics.update`
unfoldable pub update : (ℕ → ℕ) → ℕ → Statistics → Option Statistics
update sqrt rtt s = elim (restart_if_full (record s { last_rtt = rtt })) [
  | none ↦ none
  | some s' ↦ add_rtt sqrt rtt s'
]

-- The empty text of a pinger that has heard nothing, and the three of the source.
pub data ConnectionStatus : Type 0 where
  status_unset connected connection_unknown connection_error : ConnectionStatus

-- What a failure message says, which is empty for none.
pub data Failure : Type 0 where
  ping_failed creation_failed run_failed : Failure

-- `pingerImpl`, without the channel that stops its goroutine.
pub record PingerState : Type 0 where
  pub ip : String
  pub ping_interval : ℕ
  pub ping_timeout : ℕ
  pub max_packet_loss_count : ℕ
  pub statistics : Statistics
  pub failure : Option Failure
  pub connection_status : ConnectionStatus
  -- an `int32`, which one failed send a second does not bring to its end in 68 years
  pub send_errors : ℕ

-- `probing.Pinger`: its counters, and whether it was told to stop.
pub record Probe : Type 0 where
  pub packets_sent : ℕ
  pub packets_recv : ℕ
  pub is_stopped : Bool

abbrev pub new_probe : Probe
new_probe = record { packets_sent = 0; packets_recv = 0; is_stopped = false }

abbrev pub default_max_packet_loss_count : ℕ
default_max_packet_loss_count = 5

-- `size`
abbrev pub window_size : ℕ
window_size = 1000

-- A second, and ten years.
abbrev pub default_ping_interval : ℕ
default_ping_interval = 1000000000

abbrev pub default_ping_timeout : ℕ
default_ping_timeout = 87600 * 3600 * 1000000000

abbrev pub or_default : ℕ → ℕ → ℕ
or_default value default = if value == 0 then default else value

-- `NewPinger`
unfoldable pub new_pinger : Config → PingerState
new_pinger config = record {
  ip = config.ip;
  ping_interval = or_default config.interval default_ping_interval;
  ping_timeout = or_default config.timeout default_ping_timeout;
  max_packet_loss_count = or_default config.max_packet_loss_count default_max_packet_loss_count;
  statistics = new_statistics window_size;
  failure = none;
  connection_status = status_unset;
  send_errors = 0;
}

-- `checkPacketLoss`, where the received packets are on the other side of the comparison.
unfoldable pub check_packet_loss : PingerState × Probe → PingerState × Probe
check_packet_loss (p, probe) =
    if ltb (p.max_packet_loss_count + probe.packets_recv) (probe.packets_sent + p.send_errors)
    then (
      record p { connection_status = connection_error; failure = some ping_failed },
      record probe { is_stopped = true },
    )
    else (p, probe)

-- `OnSend`
unfoldable pub on_send : PingerState × Probe → PingerState × Probe
on_send s = check_packet_loss s

-- `OnSendError`, for `ENOBUFS` or another error.
unfoldable pub on_send_error : Bool → PingerState × Probe → PingerState × Probe
on_send_error true s = s
on_send_error false (p, probe) =
    check_packet_loss (record p { send_errors = p.send_errors + 1 }, probe)

-- `OnRecv`; an index of the statistics out of range panics.
unfoldable pub on_recv : (ℕ → ℕ) → ℕ → PingerState × Probe → Option (PingerState × Probe)
on_recv sqrt rtt (p, probe) = elim (update sqrt rtt p.statistics) [
  | none ↦ none
  | some statistics ↦ some (
    record p {
      connection_status = connected;
      failure = none;
      statistics = statistics;
      send_errors = 0;
    },
    record probe { packets_sent = 0; packets_recv = 0 },
  )
]

abbrev pub is_error : ConnectionStatus → Bool
is_error connection_error = true
is_error _ = false

-- `doPing` where `NewPinger` of the library fails.
abbrev pub creation_fails : PingerState → PingerState
creation_fails p = record p {
  connection_status = connection_unknown;
  failure = some creation_failed;
}

-- `doPing` after `Run`, which answers an error or none.
unfoldable pub run_ends : Bool → PingerState → PingerState
run_ends false p = p
run_ends true p = record p {
  connection_status =
      if is_error p.connection_status then p.connection_status else connection_unknown;
  failure = some run_failed;
}
