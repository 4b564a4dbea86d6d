-- ===== src/PeerGuard.antt =====
-- src/peer_guard.rs: peers that misbehave are blocked for a while. Instants and durations are natural
-- numbers, and the time of a call is an argument. A score is never negative: it starts at 0, grows by
-- `points.max(0)` and is never taken below 0.
pub mod Bans
mod Tests
use aah_chain.Base.{ℕ, ◌+◌, ◌-◌, String, List, [], ◌∷◌, Bool, true, false, Option, none, some}
use aah_chain.Base.Tests.{if◌then◌else◌, leb, ltb, unwrap_or}
use aah_chain.Base.Keys.{string_eq}
use aah_chain.Base.Maps
use aah_chain.Base.Maps.{Map, get}
use aah_chain.Base.Words.{saturating_add}

abbrev pub ban_score : ℕ
ban_score = 100

abbrev pub i32_max : ℕ
i32_max = 0x7fff_ffff

pub data PeerDecision : Type 0 where
  allow temporarily_blocked : PeerDecision

pub record PeerRecord : Type 0 where
  pub score : ℕ
  pub blocked_until : Option ℕ

pub record PeerGuard : Type 0 where
  pub peers : Map String PeerRecord
  pub ban_duration : ℕ

-- `PeerGuard::new`
unfoldable pub new_guard : ℕ → PeerGuard
new_guard ban_duration = record { peers = []; ban_duration = ban_duration }

abbrev pub put : String → PeerRecord → PeerGuard → PeerGuard
put peer r g = record g { peers = Maps.insert peer r g.peers }

-- `check`
unfoldable pub check : ℕ → String → PeerGuard → PeerDecision × PeerGuard
check now peer g = elim (get peer g.peers) [
  | none ↦ (PeerDecision.allow, g)
  | some r ↦ elim r.blocked_until [
    | none ↦ (PeerDecision.allow, g)
    | some until ↦
        if ltb now until
        then (PeerDecision.temporarily_blocked, g)
        else (PeerDecision.allow, put peer (record { score = 0; blocked_until = none }) g)
  ]
]

-- `penalize`, with the points that are not negative
unfoldable pub penalize : ℕ → String → ℕ → PeerGuard → PeerDecision × PeerGuard
penalize now peer points g =
    let r = unwrap_or (get peer g.peers) (record { score = 0; blocked_until = none }) in
    let score = saturating_add i32_max r.score points in
    if leb ban_score score
    then (
      PeerDecision.temporarily_blocked,
      put peer (record { score = score; blocked_until = some (now + g.ban_duration) }) g,
    )
    else (PeerDecision.allow, put peer (record r { score = score }) g)

-- `reward`
unfoldable pub reward : String → PeerGuard → PeerGuard
reward peer g = elim (get peer g.peers) [
  | none ↦ g
  | some r ↦ put peer (record r { score = r.score - 1 }) g
]
