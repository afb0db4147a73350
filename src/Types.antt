-- ===== src/Types.antt =====
-- src/types.rs: floats as Python hands them over, durations, and the validated configuration types.
mod Tests
pub mod Validation
use lkrequest_py.Prelude.{
  ℕ, ◌+◌, ◌*◌, ◌/◌, ◌%◌, ◌^◌, Bool, true, false, Option, none, some, ltb, leb, ◌==◌, if◌then◌else◌,
  is_some, not, ◌&&◌, PyResult, ok, err, new_err, ◌>>=◌, ◌>>◌, value_error, panic,
}

-- An `f64`. Every finite value is a whole multiple of 2 ^ -1074; `pos k` and `neg k` are k and -k
-- times that.
pub data F64 : Type 0 where
  nan inf neg_inf : F64
  pos neg : ℕ → F64

-- 1.0 in that unit.
pub one_second : ℕ
one_second = 2 ^ 1074

abbrev pub is_finite : F64 → Bool
is_finite (pos _) = true
is_finite (neg _) = true
is_finite _ = false

-- `x < 0.0`.
abbrev pub is_negative : F64 → Bool
is_negative neg_inf = true
is_negative (neg k) = ltb 0 k
is_negative _ = false

-- `Duration`, in nanoseconds.
abbrev pub Duration : Type 0
Duration = ℕ

-- To the nearest nanosecond, ties to even.
round : ℕ → ℕ → ℕ
round q r =
    if ltb (2 * r) one_second then q else if ltb one_second (2 * r) then q + 1 else q + q % 2

pub nanos : ℕ → Duration
unfolding round
nanos k = round ((k * 1000000000) / one_second) ((k * 1000000000) % one_second)

-- The panics that `Duration::from_secs_f64` documents: a negative value, one that is not finite, and
-- one that a `Duration` cannot hold, whose seconds are a `u64`.
pub from_secs_f64 : F64 → PyResult Duration
unfolding nanos
from_secs_f64 (pos k) =
    if ltb k (2 ^ 64 * one_second)
    then ok (nanos k)
    else new_err panic "cannot convert float seconds to Duration: value is either too big or NaN"
from_secs_f64 (neg k) =
    if ltb 0 k
    then new_err panic "cannot convert float seconds to Duration: value is negative"
    else ok 0
from_secs_f64 neg_inf = new_err panic "cannot convert float seconds to Duration: value is negative"
from_secs_f64 _ =
    new_err panic "cannot convert float seconds to Duration: value is either too big or NaN"

unfoldable pub validated_duration : F64 → PyResult Duration
unfolding from_secs_f64
validated_duration secs =
    if not (is_finite secs)
    then new_err value_error "Duration must be a finite non-negative number"
    else if is_negative secs
    then new_err value_error "Duration must be a finite non-negative number"
    else from_secs_f64 secs

-- `x.map(validated_duration).transpose()?`, and the `if let Some(t)` form of it.
unfoldable pub optional_duration : Option F64 → PyResult (Option Duration)
unfolding validated_duration
optional_duration none = ok none
optional_duration (some t) = do d ← validated_duration t; ok (some d)

-- `lkrequest::TimeoutConfig`, whose fields src/client.rs assigns.
pub record TimeoutConfig : Type 0 where
  pub dns_timeout : Option Duration
  pub tcp_connect_timeout : Option Duration
  pub tls_handshake_timeout : Option Duration
  pub ttfb_timeout : Option Duration
  pub total_timeout : Option Duration
  pub quic_connect_timeout : Option Duration

-- `lkrequest::ResourceLimits`, likewise.
pub record ResourceLimits : Type 0 where
  pub max_response_body_size : ℕ
  pub max_connections_per_session : ℕ
  pub max_header_count : ℕ
  pub max_header_size : ℕ
  pub max_headers_total_size : ℕ
  pub min_transfer_rate : Option ℕ
  pub transfer_rate_window : Duration

-- `if let Some(t) = dns { config = config.with_dns_timeout(…) }` and so on, from
-- `TimeoutConfig::none()`.
unfoldable pub new_timeout_config :
    Option F64 → Option F64 → Option F64 → Option F64 → Option F64 → PyResult TimeoutConfig
unfolding optional_duration
new_timeout_config dns tcp_connect tls_handshake ttfb total = do
  dns' ← optional_duration dns
  tcp' ← optional_duration tcp_connect
  tls' ← optional_duration tls_handshake
  ttfb' ← optional_duration ttfb
  total' ← optional_duration total
  ok (record {
    dns_timeout = dns';
    tcp_connect_timeout = tcp';
    tls_handshake_timeout = tls';
    ttfb_timeout = ttfb';
    total_timeout = total';
    quic_connect_timeout = none;
  })

abbrev pub or_keep {ℓ} : {A : Type ℓ} → Option A → A → A
or_keep none a = a
or_keep (some b) a = b

-- 10.0, the window of a minimum rate that is given none.
abbrev default_window : F64
default_window = pos (10 * one_second)

set_rate : Option ℕ → Option F64 → ResourceLimits → PyResult ResourceLimits
set_rate none window limits = ok limits
set_rate (some rate) window limits = do
  w ← validated_duration (or_keep window default_window)
  ok (record limits { min_transfer_rate = some rate; transfer_rate_window = w })

-- `defaults` is `ResourceLimits::default()`.
unfoldable pub new_resource_limits :
    ResourceLimits → Option ℕ → Option ℕ → Option ℕ → Option F64 → PyResult ResourceLimits
unfolding set_rate validated_duration
new_resource_limits defaults body_size connections rate window =
    let limits = record defaults {
      max_response_body_size = or_keep body_size defaults.max_response_body_size;
      max_connections_per_session = or_keep connections defaults.max_connections_per_session;
    } in
    if is_some window && not (is_some rate)
    then new_err value_error
        "transfer_rate_window has no effect without min_transfer_rate; set both or neither"
    else set_rate rate window limits

pub data H2DataFramePolicy : Type 0 where
  browser_default peer_max_frame_size : H2DataFramePolicy
  fixed_payload_of socket_write_aligned_of : ℕ → H2DataFramePolicy

pub fixed_payload : ℕ → PyResult H2DataFramePolicy
fixed_payload n =
    if n == 0
    then new_err value_error "max_payload must be greater than zero"
    else ok (fixed_payload_of n)

pub socket_write_aligned : ℕ → PyResult H2DataFramePolicy
socket_write_aligned n =
    if leb n 9
    then new_err value_error "max_write_size must exceed the 9-byte HTTP/2 frame header"
    else ok (socket_write_aligned_of n)
