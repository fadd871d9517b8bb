-- ===== src/Dht/Token.antt =====
-- src/dht/token.rs: the tokens that let a node announce its own address. SHA-1 is of another crate and
-- a parameter, a fresh secret is an argument, an address is its octets, and a time is in nanoseconds.
pub mod Validity
mod Examples
use bittorrent_rs.Prelude.{
  ℕ, ◌-◌, Bool, ◌||◌, Option, none, some, ◌++◌, leb, if◌then◌else◌, take, Bytes, bytes_eq, false,
}

-- 300 seconds.
abbrev pub token_rotation : ℕ
token_rotation = 300000000000

pub record TokenSecrets : Type 0 where
  pub current : Bytes
  pub previous : Option Bytes
  pub rotated_at : ℕ

abbrev pub new : Bytes → ℕ → TokenSecrets
new secret now = record { current = secret; previous = none; rotated_at = now }

abbrev pub rotate : TokenSecrets → Bytes → ℕ → TokenSecrets
rotate s fresh now = record { current = fresh; previous = some s.current; rotated_at = now }

-- The time since the last rotation is 0 if the clock went back.
pub rotate_if_due : TokenSecrets → Bytes → ℕ → TokenSecrets
rotate_if_due s fresh now =
    if leb token_rotation (now - s.rotated_at) then rotate s fresh now else s

module _ (sha1 : Bytes → Bytes) where
  abbrev pub token_for : Bytes → Bytes → Bytes
  token_for secret ip = take 8 (sha1 (secret ++ ip))

  abbrev pub issue : TokenSecrets → Bytes → Bytes
  issue s ip = token_for s.current ip

  abbrev pub accepts_previous : Option Bytes → Bytes → Bytes → Bool
  accepts_previous none ip token = false
  accepts_previous (some prev) ip token = bytes_eq (token_for prev ip) token

  pub accepts : TokenSecrets → Bytes → Bytes → Bool
  accepts s ip token =
      bytes_eq (token_for s.current ip) token || accepts_previous s.previous ip token
