-- ===== src/PeerGuard/Bans.antt =====
-- How long a ban of src/peer_guard.rs lasts.
use aah_chain.Base.{
  ℕ, ◌+◌, ◌-◌, ◌≤◌, ◌<◌, String, List, [], ◌∷◌, true, none, some, ◌≡◌, refl, arith, inl, inr, ap,
}
use aah_chain.Base.Tests.{leb, ltb, unwrap_or, Bool-cases, Option-cases}
use aah_chain.Base.Keys.{◌==◌, string_eq}
use aah_chain.Base.Maps.{get, get-insert, get-insert_self}
use aah_chain.Base.Sets.{All}
use aah_chain.Base.Words.{saturating_add}
use aah_chain.PeerGuard.{
  PeerDecision, PeerRecord, PeerGuard, ban_score, i32_max, put, check, penalize, reward,
}

-- A call of the guard, of any peer.
pub data Call : Type 0 where
  check_peer : ℕ → String → Call
  penalize_peer : ℕ → String → ℕ → Call
  reward_peer : String → Call

unfoldable pub after : Call → PeerGuard → PeerGuard
after (check_peer now peer) g = (check now peer g).1
after (penalize_peer now peer points) g = (penalize now peer points g).1
after (reward_peer peer) g = reward peer g

unfoldable pub run : List Call → PeerGuard → PeerGuard
run [] g = g
run (call ∷ calls) g = run calls (after call g)

-- The call is made at a time between these.
abbrev pub IsBetween : ℕ → ℕ → Call → Type 0
IsBetween start end' (check_peer now peer) = (start ≤ now) × (now < end')
IsBetween start end' (penalize_peer now peer points) = (start ≤ now) × (now < end')
IsBetween start end' (reward_peer peer) = Unit

module _ (peer : String) (start : ℕ) (end' : ℕ) where
  -- The peer is blocked until then at least.
  record IsBlocked (g : PeerGuard) : Type 0 where
    entry : PeerRecord
    known : get peer g.peers ≡ some entry
    until : ℕ
    blocked : entry.blocked_until ≡ some until
    long : end' ≤ until
    duration : end' ≤ start + g.ban_duration

  put-IsBlocked :
      (other : String) (r : PeerRecord) (g : PeerGuard)
      → IsBlocked g
      → ((other == peer) ≡ true → (until : ℕ) × (r.blocked_until ≡ some until) × (end' ≤ until))
      → IsBlocked (put other r g)
  put-IsBlocked other r g b h = elim (Bool-cases (other == peer)) [
    | inl same ↦
        let (until, e, l) = h same in
        record {
          entry = r;
          known = rw (get-insert, same) refl;
          until = until;
          blocked = e;
          long = l;
          duration = b.duration;
        }
    | inr different ↦ record {
      entry = b.entry;
      known = rw (get-insert, different) b.known;
      until = b.until;
      blocked = b.blocked;
      long = b.long;
      duration = b.duration;
    }
  ]

  check-blocked :
      (now : ℕ) (g : PeerGuard)
      → IsBlocked g
      → now < end'
      → check now peer g ≡ (PeerDecision.temporarily_blocked, g)
  unfolding check
  check-blocked now g b soon =
      let early : ltb now b.until ≡ true = ground (arith, soon, b.long) in
      rw (b.known, check) (rw (b.blocked, early) refl)

  check-IsBlocked :
      (now : ℕ) (other : String) (g : PeerGuard)
      → IsBlocked g
      → now < end'
      → IsBlocked (check now other g).1
  unfolding check
  check-IsBlocked now other g b soon = elim (Option-cases (get other g.peers)) [
    | inl new ↦ rw (new, check) b
    | inr (r, old) ↦ elim (Option-cases r.blocked_until) [
      | inl free ↦ rw (old, free, check) b
      | inr (until, banned) ↦ elim (Bool-cases (ltb now until)) [
        | inl early ↦ rw (old, banned, early, check) b
        | inr late ↦
            rw (old, banned, late, check)
              (put-IsBlocked other (record { score = 0; blocked_until = none }) g b
                (λ same.
                  let key : other ≡ peer = (string_eq.beq_iff other peer).0 same in
                  let entry : r ≡ b.entry = cc (key, old, b.known) in
                  let time : until ≡ b.until = cc (entry, banned, b.blocked) in
                  ground (arith, late, time, soon, b.long)))
      ]
    ]
  ]

  penalize-IsBlocked :
      (now : ℕ) (other : String) (points : ℕ) (g : PeerGuard)
      → IsBlocked g
      → start ≤ now
      → IsBlocked (penalize now other points g).1
  unfolding penalize
  penalize-IsBlocked now other points g b later =
      let r = unwrap_or (get other g.peers) (record { score = 0; blocked_until = none }) in
      let score = saturating_add i32_max r.score points in
      elim (Bool-cases (leb ban_score score)) [
        | inl bad ↦ rw bad (
            put-IsBlocked other _ g b
              (λ same. (now + g.ban_duration, refl, omega (arith, later, b.duration))))
        | inr fine ↦ rw fine (
            put-IsBlocked other _ g b (λ same.
              let key : other ≡ peer = (string_eq.beq_iff other peer).0 same in
              (b.until, rw (key, b.known) b.blocked, b.long)))
      ]

  reward-IsBlocked : (other : String) (g : PeerGuard) → IsBlocked g → IsBlocked (reward other g)
  unfolding reward
  reward-IsBlocked other g b = elim (Option-cases (get other g.peers)) [
    | inl new ↦ rw (new, reward) b
    | inr (r, old) ↦
        rw (old, reward)
          (put-IsBlocked other (record r { score = r.score - 1 }) g b
            (λ same.
              let key : other ≡ peer = (string_eq.beq_iff other peer).0 same in
              let entry : r ≡ b.entry = cc (key, old, b.known) in
              (b.until, rw entry b.blocked, b.long)))
  ]

  run-IsBlocked :
      (calls : List Call) (g : PeerGuard)
      → All (IsBetween start end') calls
      → IsBlocked g
      → IsBlocked (run calls g)
  unfolding run after
  run-IsBlocked [] g times b = b
  run-IsBlocked (check_peer now other ∷ calls) g times b =
      run-IsBlocked calls _ times.1 (check-IsBlocked now other g b times.0.1)
  run-IsBlocked (penalize_peer now other points ∷ calls) g times b =
      run-IsBlocked calls _ times.1 (penalize-IsBlocked now other points g b times.0.0)
  run-IsBlocked (reward_peer other ∷ calls) g times b =
      run-IsBlocked calls _ times.1 (reward-IsBlocked other g b)

-- A peer that a penalty has blocked stays blocked for the whole ban, whatever calls for whatever
-- peers follow in that time: checks, penalties and rewards.
pub ban_lasts :
    (peer : String) (start points now : ℕ) (g : PeerGuard) (calls : List Call)
    → (penalize start peer points g).0 ≡ PeerDecision.temporarily_blocked
    → All (IsBetween start (start + g.ban_duration)) calls
    → now < start + g.ban_duration
    → (check now peer (run calls (penalize start peer points g).1)).0
      ≡ PeerDecision.temporarily_blocked
unfolding penalize
ban_lasts peer start points now g calls blocked times soon =
    let r = unwrap_or (get peer g.peers) (record { score = 0; blocked_until = none }) in
    let score = saturating_add i32_max r.score points in
    let bad : leb ban_score score ≡ true = ground (arith, blocked) in
    let banned : PeerRecord = record {
      score = score;
      blocked_until = some (start + g.ban_duration);
    } in
    let b : IsBlocked peer start (start + g.ban_duration) (penalize start peer points g).1 =
      rw bad (record {
        entry = banned;
        known = get-insert_self peer banned g.peers;
        until = start + g.ban_duration;
        blocked = refl;
        long = omega arith;
        duration = omega arith;
      }) in
    ap (λ (x : PeerDecision × PeerGuard). x.0)
      (check-blocked peer start (start + g.ban_duration) now _
        (run-IsBlocked peer start (start + g.ban_duration) calls _ times b) soon)
