-- ===== src/Dht/Token/Validity.antt =====
-- src/dht/token.rs: how long a token stays good.
use bittorrent_rs.Prelude.{
  ℕ, ◌+◌, ◌-◌, ◌≤◌, ◌<◌, ◌≡◌, refl, ◌⊎◌, Bool, true, false, ◌||◌, some, List, [], ◌∷◌, arith, leb,
  leb→le, inl, inr, Bool-cases, All, Bytes, bytes_eq, bytes_eq_refl,
}
use bittorrent_rs.Dht.Token.{TokenSecrets, token_rotation, rotate_if_due, token_for, issue, accepts}

-- The clock and a fresh secret, at each look whether a rotation is due.
abbrev pub ticks : TokenSecrets → List (ℕ × Bytes) → TokenSecrets
ticks s [] = s
ticks s ((now, fresh) ∷ rest) = ticks (rotate_if_due s fresh now) rest

-- The secret is still the current one, or the previous one since a rotation that was not before `since`.
Keeps : Bytes → ℕ → TokenSecrets → Type 0
Keeps secret since s = (s.current ≡ secret) ⊎ ((s.previous ≡ some secret) × (since ≤ s.rotated_at))

rotate_if_due-Keeps :
    (secret : Bytes) (since : ℕ) (s : TokenSecrets) (fresh : Bytes) (now : ℕ)
    → since ≤ now
    → now < since + token_rotation
    → Keeps secret since s
    → Keeps secret since (rotate_if_due s fresh now)
unfolding Keeps rotate_if_due
rotate_if_due-Keeps secret since s fresh now later soon k =
    elim (Bool-cases (leb token_rotation (now - s.rotated_at))) [
      | inr not_due ↦ rw not_due k
      | inl due ↦ elim k [
        | inl current ↦ rw due (inr (rw current, later))
        | inr (previous, after) ↦
            absurd (omega (arith, leb→le token_rotation (now - s.rotated_at) due, after, soon))
      ]
    ]

ticks-Keeps :
    (secret : Bytes) (since : ℕ) (s : TokenSecrets) (steps : List (ℕ × Bytes))
    → All (λ e. (since ≤ e.0) × (e.0 < since + token_rotation)) steps
    → Keeps secret since s
    → Keeps secret since (ticks s steps)
ticks-Keeps secret since s [] h k = k
ticks-Keeps secret since s ((now, fresh) ∷ rest) h k =
    ticks-Keeps secret since (rotate_if_due s fresh now) rest h.1
      (rotate_if_due-Keeps secret since s fresh now h.0.0 h.0.1 k)

-- A token that is issued at a time is accepted from the same address for less than 300 seconds from
-- then on, however often the rotation is looked at in between and whatever the secrets are.
pub accepts-issue :
    (sha1 : Bytes → Bytes) (s : TokenSecrets) (ip : Bytes) (since : ℕ) (steps : List (ℕ × Bytes))
    → All (λ e. (since ≤ e.0) × (e.0 < since + token_rotation)) steps
    → accepts sha1 (ticks s steps) ip (issue sha1 s ip) ≡ true
unfolding accepts Keeps
accepts-issue sha1 s ip since steps h =
    let token = issue sha1 s ip in
    elim (ticks-Keeps s.current since s steps h (inl refl)) [
      | inl current ↦ rw (current, bytes_eq_refl token) refl
      | inr (previous, after) ↦
          rw (previous, bytes_eq_refl token)
            (either (bytes_eq (token_for sha1 (ticks s steps).current ip) token))
    ]
  where
    either : (b : Bool) → (b || true) ≡ true
    either true = refl
    either false = refl
