-- ===== src/Remote.antt =====
-- crates/niuma-core/src/remote/connection_policy.rs: when a remote device is connected again, and
-- where to. A duration is its nanoseconds.
use niu_ma_notifier.Prelude.Text.{trim, strip_prefix, format}
use niu_ma_notifier.Prelude.{
  ℕ, ◌+◌, ◌*◌, ◌^◌, ◌≤◌, min, String, ◌≡◌, ◌||◌, Option, none, some, [], ◌∷◌, arith, if◌then◌else◌,
  ◌==◌, nat_eq, string_eq, Result, ok, err,
}
use native.Mathlib.Nat.{pow-suc}
use niu_ma_notifier.Prelude.Text.{trim_start, trim_end, is_blank}
use niu_ma_notifier.Prelude.{◌-◌, refl, leb, inl, inr, Bool-cases}
use niu_ma_notifier.Models.{Duration}

pub data DeviceSocketCloseReason : Type 0 where
  token_revoked server_shutdown network_error protocol_error : DeviceSocketCloseReason

abbrev pub token_revoked_close_code : ℕ
token_revoked_close_code = 4003

unfoldable pub classify_device_socket_close : Option ℕ → DeviceSocketCloseReason
classify_device_socket_close none = network_error
classify_device_socket_close (some code) =
    if code == token_revoked_close_code
    then token_revoked
    else if code == 1001
    then server_shutdown
    else if (code == 1002) || ((code == 1003) || ((code == 1007) || (code == 1008)))
    then protocol_error
    else network_error

pub record ReconnectBackoff : Type 0 where
  pub base : Duration
  pub max : Duration

-- `Duration::MAX`.
abbrev pub duration_max : Duration
duration_max = (2 ^ 64 - 1) * 1_000_000_000 + 999_999_999

-- A power of two with an exponent of 16 at most is far from the end of 32 bits.
unfoldable pub delay_for_attempt : ReconnectBackoff → ℕ → Duration
delay_for_attempt backoff attempt =
    min (min (backoff.base * 2 ^ min attempt 16) duration_max) backoff.max

-- `ReconnectBackoff::default`.
unfoldable pub default_backoff : ReconnectBackoff
default_backoff = record { base = 1_000_000_000; max = 60_000_000_000 }

-- `trim_end_matches('/')`.
unfoldable pub trim_slashes : String → String
trim_slashes String.[] = String.[]
trim_slashes (String.◌∷◌ c s) = elim (trim_slashes s) [
  | String.[] ↦ if String.◌∷◌ c String.[] == "/" then String.[] else String.◌∷◌ c String.[]
  | String.◌∷◌ d rest ↦ String.◌∷◌ c (String.◌∷◌ d rest)
]

-- The second test of `device_socket_url`.
unfoldable pub plain_socket_url : Option String → Result String
plain_socket_url (some rest) = ok (format ("ws://" ∷ rest ∷ "/ws/device" ∷ []))
plain_socket_url none = err "远程服务地址必须以 http:// 或 https:// 开头"

unfoldable pub device_socket_url : String → Result String
device_socket_url server_url =
    let trimmed = trim_slashes (trim server_url) in
    elim (strip_prefix trimmed "https://") [
      | some rest ↦ ok (format ("wss://" ∷ rest ∷ "/ws/device" ∷ []))
      | none ↦ plain_socket_url (strip_prefix trimmed "http://")
    ]

-- One attempt more never makes the delay shorter, never longer than twice as long, and no delay is
-- longer than the limit.
pub delay_for_attempt_grows :
    (backoff : ReconnectBackoff) (attempt : ℕ)
    → (delay_for_attempt backoff attempt ≤ delay_for_attempt backoff (attempt + 1))
      × (delay_for_attempt backoff (attempt + 1)
          ≤ delay_for_attempt backoff attempt + delay_for_attempt backoff attempt)
      × (delay_for_attempt backoff (attempt + 1) ≤ backoff.max)
unfolding delay_for_attempt
delay_for_attempt_grows backoff attempt = elim (Bool-cases (leb 16 attempt)) [
  | inl h ↦
      let now : min attempt 16 ≡ 16 = ground arith in
      let next : min (attempt + 1) 16 ≡ 16 = ground arith in
      rw (now, next) (omega arith, omega arith, omega arith)
  | inr h ↦
      let now : min attempt 16 ≡ attempt = ground arith in
      let next : min (attempt + 1) 16 ≡ attempt + 1 = ground arith in
      let double : backoff.base * 2 ^ (attempt + 1)
          ≡ backoff.base * 2 ^ attempt + backoff.base * 2 ^ attempt =
        grind (arith, pow-suc 2 attempt) in
      rw (now, next, double) (omega arith, omega arith, omega arith)
]

url_example : device_socket_url " https://a.b// " ≡ ok "wss://a.b/ws/device"
unfolding device_socket_url trim_slashes strip_prefix format trim trim_end trim_start is_blank
url_example = refl
