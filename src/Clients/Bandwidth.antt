-- ===== src/Clients/Bandwidth.antt =====
-- clients/clients.go: the bandwidth of the peers. A line of the device's statistics is a datum, whose
-- numbers are below 2^63. A reported amount is in bytes: the code divides it by 2^20, which is exact
-- for a floating-point number. A time is a number of nanoseconds.
use newt.Prelude.{
  ℕ, ◌+◌, ◌^◌, ◌-◌, ◌<◌, ◌≤◌, ◌≡◌, String, ◌||◌, Option, none, some, List, [], ◌∷◌, ◌++◌, ◌∙◌, ◌==◌,
  string_eq, if◌then◌else◌, ltb, arith, beq_refl,
}
use newt.Prelude.GoMap.{GoMap, lookup, insert, elem, lookup-insert}

pub record PeerReading : Type 0 where
  pub bytes_received : ℕ
  pub bytes_transmitted : ℕ
  pub last_checked : ℕ

pub record PeerBandwidth : Type 0 where
  pub public_key : String
  pub bytes_in : ℕ
  pub bytes_out : ℕ

pub data Line : Type 0 where
  public_key : String → Line
  rx_bytes : ℕ → Line
  tx_bytes : ℕ → Line
  other_line : Line

abbrev pub Readings : Type 0
Readings = GoMap String PeerReading

-- The conversion of an integer to `float64`, which rounds it. Integers up to 2^53 are represented, and
-- a positive integer does not become 0.
pub record Float64 : Type 0 where
  pub of_int : ℕ → ℕ
  pub of_int-exact : (n : ℕ) → n ≤ 2 ^ 53 → of_int n ≡ n
  pub of_int-positive : (n : ℕ) → 0 < n → 0 < of_int n

-- the bytes since the last reading, converted; a counter that fell has begun anew
unfoldable pub bytes_since : Float64 → ℕ → ℕ → ℕ
bytes_since f now last = if ltb now last then f.of_int now else f.of_int (now - last)

unfoldable pub process_peer_bandwidth :
    Float64 → String → PeerReading → Readings → Option PeerBandwidth × Readings
unfolding bytes_since
process_peer_bandwidth f key r m =
    let m' = insert key r m in
    elim (lookup key m) [
      | none ↦ (none, m')
      | some last ↦
          if ltb last.last_checked r.last_checked
          then (let bytes_in = bytes_since f r.bytes_received last.bytes_received in
              let bytes_out = bytes_since f r.bytes_transmitted last.bytes_transmitted in
              (
                if ltb 0 bytes_in || ltb 0 bytes_out
                    then some
                        (record { public_key = key; bytes_in = bytes_in; bytes_out = bytes_out })
                    else none,
                m',
              ))
          else (none, m')
    ]

abbrev append_some {ℓ} : {A : Type ℓ} → List A → Option A → List A
append_some l none = l
append_some l (some a) = l ++ a ∷ []

-- the peer that the lines so far are about, unless there is none yet
unfoldable pub finish_peer :
    Float64 → String → ℕ → ℕ → ℕ → List PeerBandwidth × Readings → List PeerBandwidth × Readings
unfolding process_peer_bandwidth
finish_peer f key rx tx now (out, m) =
    if key == ""
    then (out, m)
    else (let r : PeerReading = record {
      bytes_received = rx;
      bytes_transmitted = tx;
      last_checked = now;
    } in
        let (b, m') = process_peer_bandwidth f key r m in (append_some out b, m'))

-- the loop over the lines
unfoldable pub read_lines :
    Float64
    → String
    → ℕ
    → ℕ
    → ℕ
    → List Line
    → List PeerBandwidth × Readings
    → List PeerBandwidth × Readings
unfolding finish_peer
read_lines f key rx tx now [] acc = finish_peer f key rx tx now acc
read_lines f key rx tx now (public_key k ∷ l) acc =
    read_lines f k 0 0 now l (finish_peer f key rx tx now acc)
read_lines f key rx tx now (rx_bytes n ∷ l) acc = read_lines f key n tx now l acc
read_lines f key rx tx now (tx_bytes n ∷ l) acc = read_lines f key rx n now l acc
read_lines f key rx tx now (other_line ∷ l) acc = read_lines f key rx tx now l acc

abbrev pub line_keys : List Line → List String
line_keys [] = []
line_keys (public_key k ∷ l) = k ∷ line_keys l
line_keys (_ ∷ l) = line_keys l

-- the clean-up of the readings
unfoldable pub keep_known : List String → Readings → Readings
keep_known known [] = []
keep_known known ((k, r) ∷ m) =
    let rest = keep_known known m in if elem k known then (k, r) ∷ rest else rest

-- up to the loop that re-encodes the keys
unfoldable pub calculate_peer_bandwidth :
    Float64 → ℕ → List Line → Readings → List PeerBandwidth × Readings
unfolding read_lines keep_known
calculate_peer_bandwidth f now lines m =
    let (out, m') = read_lines f "" 0 0 now lines ([], m) in (out, keep_known (line_keys lines) m')

-- The readings of one peer one after another, with the bytes that are reported.
unfoldable pub report_each : Float64 → String → List PeerReading → Readings → (ℕ × ℕ) × Readings
report_each f key [] m = ((0, 0), m)
report_each f key (r ∷ l) m =
    let (b, m') = process_peer_bandwidth f key r m in
    let (sums, m'') = report_each f key l m' in
    elim b [ none ↦ (sums, m'') | some x ↦ ((x.bytes_in + sums.0, x.bytes_out + sums.1), m'') ]

-- Each reading is later than the one before it, and its counters are not below.
abbrev pub IsGrowing : PeerReading → List PeerReading → Type 0
IsGrowing last [] = Unit
IsGrowing last (r ∷ l) =
    (last.last_checked < r.last_checked)
    × (last.bytes_received ≤ r.bytes_received)
    × (last.bytes_transmitted ≤ r.bytes_transmitted)
    × IsGrowing r l

abbrev pub last_reading : PeerReading → List PeerReading → PeerReading
last_reading r [] = r
last_reading r (s ∷ l) = last_reading s l

bytes_since-growing :
    (f : Float64) (now last : ℕ)
    → last ≤ now
    → now - last ≤ 2 ^ 53
    → bytes_since f now last ≡ now - last
unfolding bytes_since
bytes_since-growing f now last h small = ground (arith, f.of_int-exact (now - last) small)

abbrev reported : Option PeerBandwidth → ℕ × ℕ
reported none = (0, 0)
reported (some x) = (x.bytes_in, x.bytes_out)

process_peer_bandwidth-growing :
    (f : Float64) (key : String) (r last : PeerReading) (m : Readings)
    → lookup key m ≡ some last
    → last.last_checked < r.last_checked
    → last.bytes_received ≤ r.bytes_received
    → last.bytes_transmitted ≤ r.bytes_transmitted
    → r.bytes_received - last.bytes_received ≤ 2 ^ 53
    → r.bytes_transmitted - last.bytes_transmitted ≤ 2 ^ 53
    → reported (process_peer_bandwidth f key r m).0
      ≡ (r.bytes_received - last.bytes_received, r.bytes_transmitted - last.bytes_transmitted)
unfolding process_peer_bandwidth
process_peer_bandwidth-growing f key r last m at later rx tx rx_small tx_small = ground (
  arith,
  at,
  bytes_since-growing f r.bytes_received last.bytes_received rx rx_small,
  bytes_since-growing f r.bytes_transmitted last.bytes_transmitted tx tx_small,
)

process_peer_bandwidth-keeps :
    (f : Float64) (key : String) (r : PeerReading) (m : Readings)
    → (process_peer_bandwidth f key r m).1 ≡ insert key r m
unfolding process_peer_bandwidth
process_peer_bandwidth-keeps f key r m = ground arith

report_each-cons :
    (f : Float64) (key : String) (r : PeerReading) (l : List PeerReading) (m : Readings)
    → (report_each f key (r ∷ l) m).0 ≡ (
      (reported (process_peer_bandwidth f key r m).0).0
          + (report_each f key l (insert key r m)).0.0,
      (reported (process_peer_bandwidth f key r m).0).1
          + (report_each f key l (insert key r m)).0.1,
    )
unfolding report_each
report_each-cons f key r l m = ground (arith, process_peer_bandwidth-keeps f key r m)

-- The counters of the last reading are not below those of the first.
last_reading-le :
    (last : PeerReading) (l : List PeerReading)
    → IsGrowing last l
    → (last.bytes_received ≤ (last_reading last l).bytes_received)
      × (last.bytes_transmitted ≤ (last_reading last l).bytes_transmitted)
last_reading-le last [] g = (omega arith, omega arith)
last_reading-le last (r ∷ l) (later, rx, tx, g) =
    let (rx_le, tx_le) = last_reading-le r l g in (omega arith, omega arith)

-- For a peer whose last reading is known, the bytes that are reported for any readings after it, each
-- later than the one before it and with counters not below, add up to the difference of the last and
-- the first, if these differences are at most 2^53, below which the conversion to floating point is
-- exact.
pub report_each-IsGrowing :
    (f : Float64) (key : String) (last : PeerReading) (l : List PeerReading) (m : Readings)
    → lookup key m ≡ some last
    → IsGrowing last l
    → (last_reading last l).bytes_received - last.bytes_received ≤ 2 ^ 53
    → (last_reading last l).bytes_transmitted - last.bytes_transmitted ≤ 2 ^ 53
    → (report_each f key l m).0 ≡ (
      (last_reading last l).bytes_received - last.bytes_received,
      (last_reading last l).bytes_transmitted - last.bytes_transmitted,
    )
unfolding report_each
report_each-IsGrowing f key last [] m at g rx_small tx_small = ground arith
report_each-IsGrowing f key last (r ∷ l) m at (later, rx, tx, g) rx_small tx_small =
    let m' : Readings = insert key r m in
    let found : lookup key m' ≡ some r = ground (arith, lookup-insert key key r m, beq_refl key) in
    let (rx_le, tx_le) = last_reading-le r l g in
    report_each-cons f key r l m
    ∙ ground (
      arith,
      process_peer_bandwidth-growing f key r last m at later rx tx (omega arith) (omega arith),
      report_each-IsGrowing f key r l m' found g (omega arith) (omega arith),
    )
