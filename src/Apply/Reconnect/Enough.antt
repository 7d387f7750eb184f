-- ===== src/Apply/Reconnect/Enough.antt =====
-- The loop of `reconnectUntil` of src/apply/reconnect.ts ends: its rounds are enough on a clock that is
-- not turned back and that a sleep advances.
use openwrt_configurator.Prelude.{
  ℕ, zero, suc, ◌+◌, ◌*◌, ◌≤◌, Option, none, some, Bool, true, false, leb, ◌≡◌, refl, sym, arith,
}
use openwrt_configurator.Apply.Io.{
  Outcome, returned, thrown, pure, throw, attempt, continue, ◌>>=◌, ◌>>◌,
}
use openwrt_configurator.Apply.Run.{Net, World, M, now, sleep}
use openwrt_configurator.Apply.Reconnect.{
  reconnect_interval_ms, in_time, reconnect_loop, rounds, reconnect_until,
}

module _ ⦃net : Net⦄ (connect : M net.Session) (deadline : ℕ) where
  abbrev time : World net.State → ℕ
  time w = net.now w.state

  -- Rounds that reach the deadline.
  abbrev Reaches : ℕ → World net.State → Type 0
  Reaches n w = deadline ≤ time w + 3000 * n

  -- The rest of a round once there is no session, by whether the interval passes the deadline.
  abbrev waits : ℕ → Bool → M net.Session
  waits fuel late = elim late [
    | true ↦ throw
    | false ↦ sleep reconnect_interval_ms >> reconnect_loop fuel connect deadline
  ]

  -- What a round does with a session, or without one.
  abbrev next_round : ℕ → Option net.Session → M net.Session
  next_round fuel (some session) = pure session
  next_round fuel none = do u ← now; waits fuel (leb deadline (u + reconnect_interval_ms))

  -- A round, by whether the deadline has passed.
  abbrev round : ℕ → Bool → M net.Session
  round fuel late = elim late [
    | true ↦ throw
    | false ↦ do tried ← attempt (connect >>= in_time deadline); next_round fuel tried
  ]

  module _ (advances : (ms : ℕ) (s : net.State) → net.now s + ms ≤ net.now (net.sleep ms s))
      (onward : (w : World net.State) → net.now w.state ≤ net.now (connect w).1.state) where
    -- Two amounts of fuel that come to the same from a time on.
    abbrev Same : ℕ → ℕ → Type 0
    Same n m =
        (w : World net.State)
        → Reaches n w
        → Reaches m w
        → reconnect_loop n connect deadline w ≡ reconnect_loop m connect deadline w

    module _ (n m : ℕ) (same : Same n m) (t : ℕ) (a : deadline ≤ t + 3000 * suc n)
        (b : deadline ≤ t + 3000 * suc m) where
      waits-Same :
          (late : Bool) (w : World net.State) → t ≤ time w → waits n late w ≡ waits m late w
      unfolding throw sleep ◌>>=◌
      waits-Same true w l = refl
      waits-Same false w l =
          let later = advances reconnect_interval_ms w.state in
          same (record w { state = net.sleep reconnect_interval_ms w.state })
            (omega (arith, l, a, later)) (omega (arith, l, b, later))

      next_round-Same :
          (tried : Option net.Session) (w : World net.State)
          → t ≤ time w
          → next_round n tried w ≡ next_round m tried w
      unfolding pure now ◌>>=◌
      next_round-Same (some session) w l = refl
      next_round-Same none w l = waits-Same (leb deadline (time w + reconnect_interval_ms)) w l

      -- A session that came in time ends the loop, and one that came late is none.
      tried-Same :
          (session : net.Session) (late : Bool) (w : World net.State)
          → t ≤ time w
          → (attempt (elim late [ true ↦ throw | false ↦ pure session ]) >>= next_round n) w
            ≡ (attempt (elim late [ true ↦ throw | false ↦ pure session ]) >>= next_round m) w
      unfolding throw pure attempt ◌>>=◌
      tried-Same session true w l = next_round-Same none w l
      tried-Same session false w l = refl

      came-Same :
          (came : Outcome net.Session) (w : World net.State)
          → t ≤ time w
          → (attempt (continue came (in_time deadline)) >>= next_round n) w
            ≡ (attempt (continue came (in_time deadline)) >>= next_round m) w
      unfolding throw pure now attempt in_time ◌>>=◌
      came-Same thrown w l = next_round-Same none w l
      came-Same (returned session) w l = tried-Same session (leb deadline (time w)) w l

      round-Same :
          (late : Bool) (w : World net.State) → t ≡ time w → round n late w ≡ round m late w
      unfolding throw attempt ◌>>=◌
      round-Same true w l = refl
      round-Same false w l = came-Same (connect w).0 (connect w).1 (omega (arith, l, onward w))

    late_round :
        (n : ℕ) (late : Bool) (w : World net.State) → late ≡ true → round n late w ≡ throw w
    late_round n true w e = refl
    late_round n false w e = ground (arith, e)

    loop-Same : (n m : ℕ) → Same n m
    unfolding reconnect_loop throw now ◌>>=◌
    loop-Same zero zero w a b = refl
    loop-Same zero (suc m) w a b = sym (late_round m (leb deadline (time w)) w (ground (arith, a)))
    loop-Same (suc n) zero w a b = late_round n (leb deadline (time w)) w (ground (arith, b))
    loop-Same (suc n) (suc m) w a b =
        round-Same n m (loop-Same n m) (time w) a b (leb deadline (time w)) w refl

-- On a clock that connecting never turns back and that a sleep advances by its time, reconnecting with
-- any more rounds than it is given comes to the same: it ends by its deadline, not by its rounds.
pub reconnect_until-rounds :
    ⦃net : Net⦄ (connect : M net.Session) (deadline : ℕ)
    → ((ms : ℕ) (s : net.State) → net.now s + ms ≤ net.now (net.sleep ms s))
    → ((w : World net.State) → net.now w.state ≤ net.now (connect w).1.state)
    → (n : ℕ) (w : World net.State) → rounds deadline (net.now w.state) ≤ n
    → reconnect_loop n connect deadline w ≡ reconnect_until connect deadline w
unfolding reconnect_until now ◌>>=◌
reconnect_until-rounds connect deadline advances onward n w l =
    loop-Same connect deadline advances onward n (rounds deadline (time connect deadline w)) w
      (omega (arith, l)) (omega arith)
