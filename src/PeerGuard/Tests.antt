-- ===== src/PeerGuard/Tests.antt =====
-- A peer that is blocked, and the theorem of src/peer_guard.rs applied to it.
use aah_chain.Base.{List, [], ◌∷◌, ◌≡◌, refl, arith}
use aah_chain.Base.Maps
use aah_chain.Base.Maps.{get}
use aah_chain.PeerGuard.{PeerDecision, PeerGuard, new_guard, check, penalize, reward}
use aah_chain.PeerGuard.Bans.{Call, check_peer, penalize_peer, reward_peer, run, after, ban_lasts}

-- The peer has 60 points already, and gets 50 more at 1000.
abbrev guard : PeerGuard
guard = (penalize 900 "mallory" 60 (new_guard 300)).1

abbrev calls : List Call
calls =
    check_peer 1001 "mallory"
    ∷ reward_peer "mallory"
    ∷ penalize_peer 1100 "bob" 20
    ∷ check_peer 1299 "bob"
    ∷ reward_peer "mallory"
    ∷ []

is_banned : (penalize 1000 "mallory" 50 guard).0 ≡ PeerDecision.temporarily_blocked
unfolding penalize new_guard get Maps.insert
is_banned = refl

is_free_later :
    (check 1300 "mallory" (run calls (penalize 1000 "mallory" 50 guard).1)).0 ≡ PeerDecision.allow
unfolding penalize new_guard get Maps.insert run after check reward
is_free_later = refl

ban_lasts_example :
    (check 1299 "mallory" (run calls (penalize 1000 "mallory" 50 guard).1)).0
    ≡ PeerDecision.temporarily_blocked
unfolding penalize new_guard get Maps.insert
ban_lasts_example =
    ban_lasts "mallory" 1000 50 1299 guard calls is_banned
      (
        (omega arith, omega arith),
        (tt, ((omega arith, omega arith), ((omega arith, omega arith), (tt, tt)))),
      )
      (omega arith)
