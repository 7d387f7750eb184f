-- ===== src/Apply/Kept/Disarming.antt =====
-- The disarming: a device that is not told to keep its config answered no disarm.
use mathlib.Core.Path.{subst}
use mathlib.Core.Bool.{false≢true}
use openwrt_configurator.Prelude.{
  Text, Option, none, some, List, [], ◌∷◌, Bool, true, false, ◌≡◌, refl, ◌⊎◌, inl, inr, All,
}
use openwrt_configurator.Apply.Io.{returned, thrown, pure, attempt, ◌>>=◌, ◌>>◌}
use openwrt_configurator.Apply.Run.{Net, World, Run, Event, call}
use openwrt_configurator.Apply.Recover.{
  Disarm, disarmed, fired, disarm_verb, reconnect, call_live, report_disarm, disarm_live,
}
use openwrt_configurator.Apply.Network.Phases.{Confirmed, Disarmed, count_disarm, disarm_all}
use openwrt_configurator.Apply.Traces.{Grew-All, Emits-attempt}
use openwrt_configurator.Apply.Traces.Devices.{reconnect-Emits, report_disarm-Emits}
use openwrt_configurator.Apply.Kept.{
  NotKept, mild-NotKept, is_disarmed, Post, then_post, option_post,
}

module _ ⦃net : Net⦄ (id : Text) where
  -- One answer to a disarm.
  abbrev Answered : Post (Option Disarm)
  Answered (returned o, w) = (is_disarmed o ≡ true) ⊎ All (NotKept id) w.log
  Answered (thrown, w) = Unit

  abbrev pub Told : Post (Option (Disarm × net.Session))
  Told (returned (some (disarmed, s)), w) = Unit
  Told (returned (some (fired, s)), w) = All (NotKept id) w.log
  Told (returned none, w) = All (NotKept id) w.log
  Told (thrown, w) = Unit

  abbrev pub NoneKept : List Confirmed → List Event → Type 0
  NoneKept [] log = All (NotKept id) log
  NoneKept (c ∷ cs) log = Unit

  abbrev pub KeptNone : Post Disarmed
  KeptNone (returned d, w) = NoneKept d.kept w.log
  KeptNone (thrown, w) = Unit

  one_more :
      {X Y : Type 0} (o : Option Disarm)
      → X
      → (is_disarmed o ≡ true) ⊎ ((Y ⊎ (is_disarmed o ≡ false)) × X)
  one_more none x = inr (inr refl, x)
  one_more (some disarmed) x = inl refl
  one_more (some fired) x = inr (inr refl, x)

  disarm-Answered :
      (run : Run) (s : net.Session) (w : World net.State)
      → All (NotKept id) w.log
      → Answered (call s (disarm_verb run.run_id) w)
  unfolding call
  disarm-Answered run s w h = one_more _ h

  Told_of_Answered :
      (a : Disarm) (s : net.Session) (w : World net.State)
      → Answered (returned (some a), w)
      → Told (returned (some (a, s)), w)
  Told_of_Answered disarmed s w h = tt
  Told_of_Answered fired s w (inl e) = elim (false≢true e) [ ]
  Told_of_Answered fired s w (inr h) = h

  unanswered : (w : World net.State) → Answered (returned none, w) → All (NotKept id) w.log
  unanswered w (inl e) = elim (false≢true e) [ ]
  unanswered w (inr h) = h

  again-Told :
      (run : Run) (s : net.Session) (w : World net.State)
      → All (NotKept id) w.log
      → Told (
          (do
            again ← call s (disarm_verb run.run_id)
            elim again [ none ↦ pure none | some a ↦ pure (some (a, s)) ])
            w)
  unfolding pure
  again-Told run s w h =
      then_post Told Answered (call s (disarm_verb run.run_id)) _ w (disarm-Answered run s w h)
        (λ v k. tt)
        (λ o v k.
          option_post Told _ _ o v (λ q. unanswered v (subst (λ x. Answered (returned x, v)) q k))
            (λ a q. Told_of_Answered a s v (subst (λ x. Answered (returned x, v)) q k)))

  call_live-Told :
      (run : Run) (s : net.Session) (w : World net.State)
      → All (NotKept id) w.log
      → Told (call_live run s (disarm_verb run.run_id) w)
  unfolding call_live pure
  call_live-Told run s w h =
      then_post Told Answered (call s (disarm_verb run.run_id)) _ w (disarm-Answered run s w h)
        (λ v k. tt)
        (λ o v k.
          option_post Told _ _ o v
            (λ q.
              then_post Told (λ p. All (NotKept id) p.1.log) (attempt (reconnect run 15)) _ v
                (Grew-All
                  ((Emits-attempt (reconnect-Emits (NotKept id) (mild-NotKept id) run 15)).at v)
                  (unanswered v (subst (λ x. Answered (returned x, v)) q k)))
                (λ u j. tt)
                (λ fresh u j.
                  option_post Told _ _ fresh u (λ r. j) (λ other r. again-Told run other u j)))
            (λ a q. Told_of_Answered a s v (subst (λ x. Answered (returned x, v)) q k)))

  reported :
      (run : Run) (b : Bool) (a : Disarm) (s : net.Session) (w : World net.State)
      → Told (returned (some (a, s)), w)
      → Told ((report_disarm run a b >> pure (some (a, s))) w)
  unfolding pure
  reported run b disarmed s w h =
      then_post Told (λ p. Unit) (report_disarm run disarmed b) _ w tt (λ v k. tt) (λ u v k. tt)
  reported run b fired s w h =
      then_post Told (λ p. All (NotKept id) p.1.log) (report_disarm run fired b) _ w
        (Grew-All ((report_disarm-Emits (NotKept id) (mild-NotKept id) run fired b).at w) h)
        (λ v k. tt) (λ u v k. k)

  pub disarm_live-Told :
      (run : Run) (s : net.Session) (b : Bool) (w : World net.State)
      → All (NotKept id) w.log
      → Told (disarm_live run s b w)
  unfolding disarm_live pure
  disarm_live-Told run s b w h =
      then_post Told Told (call_live run s (disarm_verb run.run_id)) _ w (call_live-Told run s w h)
        (λ v k. tt)
        (λ o v k.
          option_post Told _ _ o v (λ q. subst (λ x. Told (returned x, v)) q k)
            (λ a q. reported run b a.0 a.1 v (subst (λ x. Told (returned x, v)) q k)))

  counted :
      (run : Run) (o : Option (Disarm × net.Session)) (rest : List Confirmed) (w : World net.State)
      → Told (returned o, w)
      → (All (NotKept id) w.log → KeptNone (disarm_all rest w))
      → KeptNone ((do later ← disarm_all rest; pure (count_disarm run o later)) w)
  unfolding pure
  counted run none rest w h next =
      then_post KeptNone KeptNone (disarm_all rest) _ w (next h) (λ v k. tt) (λ d v k. k)
  counted run (some (fired, s)) rest w h next =
      then_post KeptNone KeptNone (disarm_all rest) _ w (next h) (λ v k. tt) (λ d v k. k)
  counted run (some (disarmed, s)) rest w h next =
      then_post KeptNone (λ p. Unit) (disarm_all rest) _ w tt (λ v k. tt) (λ d v k. tt)

  -- Where no device is kept, no device answered that it keeps its config.
  pub disarm_all-KeptNone :
      (l : List Confirmed) (w : World net.State)
      → All (NotKept id) w.log
      → KeptNone (disarm_all l w)
  unfolding disarm_all pure
  disarm_all-KeptNone [] w h = h
  disarm_all-KeptNone ((run, s) ∷ rest) w h =
      then_post KeptNone Told (disarm_live run s false) _ w (disarm_live-Told run s false w h)
        (λ v k. tt) (λ o v k. counted run o rest v k (disarm_all-KeptNone rest v))
