-- ===== src/Apply/Kept/Whole.antt =====
-- The whole change of src/apply/provisionNetwork.ts: a run that ends undone kept no device.
use mathlib.Core.Path.{subst}
use openwrt_configurator.Prelude.{
  Text, ℕ, List, [], ◌∷◌, Bool, true, false, ◌⊎◌, inl, inr, All, All-map,
}
use openwrt_configurator.Apply.Io.{returned, thrown, pure, ◌>>=◌}
use openwrt_configurator.Apply.Run.{Net, World, M, Run, Event, ok, err}
use openwrt_configurator.Apply.Network.{
  RunEnd, RunFailure, DeviceOutcome, RunResult, applied_with_problems, rolled_back, partial, failed,
  plan_stale,
}
use openwrt_configurator.Apply.Network.Phases.{
  Confirmed, confirm_all, ready_to_disarm, disarm_all, lost_outcomes, configure_all,
}
use openwrt_configurator.Apply.Network.Whole.{
  names, lost_result, after_all, conclude, change_all, result_of,
}
use openwrt_configurator.Apply.Traces.{Emits, Grew-All}
use openwrt_configurator.Apply.Traces.Undo.{
  confirm_all-Emits, ready_to_disarm-Emits, lost_outcomes-Emits,
}
use openwrt_configurator.Apply.Kept.{
  NotCommit, NotDisarm, NotKept, mild-NotDisarm, mild-NotKept, NotKept-NotDisarm, Post, then_post,
  result_post, HasDistinctIds,
}
use openwrt_configurator.Apply.Kept.Disarming.{NoneKept, KeptNone, disarm_all-KeptNone}
use openwrt_configurator.Apply.Kept.Before.{Settled, configure_all-Settled}

-- The run says that it was undone, or never changed anything.
abbrev pub IsUndone : RunEnd → Type 0
IsUndone rolled_back = Unit
IsUndone failed = Unit
IsUndone plan_stale = Unit
IsUndone partial = ⊥
IsUndone applied_with_problems = ⊥

module _ ⦃net : Net⦄ (id : Text) where
  abbrev pub Final : Post RunResult
  Final (returned (err f), w) = IsUndone f.end → All (NotCommit id) w.log ⊎ All (NotKept id) w.log
  Final (returned (ok n), w) = Unit
  Final (thrown, w) = Unit

  hooked-Final :
      (kept : List Confirmed) (hooked : Bool) (w : World net.State)
      → Final (returned (result_of kept hooked), w)
  hooked-Final kept true w = tt
  hooked-Final kept false w = λ h. elim h [ ]

  lost-Final :
      (kept : List Confirmed) (o : List (Text × DeviceOutcome)) (w : World net.State)
      → NoneKept id kept w.log
      → Final (returned (err (lost_result (names kept) o)), w)
  lost-Final [] o w h = λ u. inr h
  lost-Final (c ∷ cs) o w h = λ u. elim u [ ]

  NoneKept-mild :
      {A : Type 0} (kept : List Confirmed) (m : M A) (w : World net.State)
      → Emits (NotKept id) m
      → NoneKept id kept w.log
      → NoneKept id kept (m w).1.log
  NoneKept-mild [] m w g h = Grew-All (g.at w) h
  NoneKept-mild (c ∷ cs) m w g h = tt

  after_all-NoneKept :
      (kept : List Confirmed) (w : World net.State)
      → NoneKept id kept w.log
      → NoneKept id kept (after_all kept w).1.log
  unfolding after_all pure
  after_all-NoneKept [] w h = h
  after_all-NoneKept (c ∷ cs) w h = tt

  conclude_lists :
      (kept : List Confirmed) (lost : List (Run × Bool)) (w : World net.State)
      → NoneKept id kept w.log
      → Final (conclude (record { kept = kept; lost = lost }) w)
  unfolding conclude pure
  conclude_lists kept [] w h =
      then_post Final (λ p. NoneKept id kept p.1.log) (after_all kept) _ w
        (after_all-NoneKept kept w h) (λ v k. tt) (λ hooked v k. hooked-Final kept hooked v)
  conclude_lists kept (l ∷ ls) w h =
      then_post Final (λ p. NoneKept id kept p.1.log) (after_all kept) _ w
        (after_all-NoneKept kept w h) (λ v k. tt)
        (λ hooked v k.
          then_post Final (λ p. NoneKept id kept p.1.log) (lost_outcomes (l ∷ ls)) _ v
            (NoneKept-mild kept (lost_outcomes (l ∷ ls)) v
              (lost_outcomes-Emits (NotKept id) (mild-NotKept id) (l ∷ ls)) k)
            (λ u j. tt) (λ o u j. lost-Final kept o u j))

  unkept : (log : List Event) → All (NotDisarm id) log → All (NotKept id) log
  unkept log h = All-map (NotDisarm id) (NotKept id) (NotKept-NotDisarm id) log h

  disarmed-Final :
      (l : List Confirmed) (w : World net.State)
      → All (NotDisarm id) w.log
      → Final ((disarm_all l >>= conclude) w)
  disarmed-Final l w h =
      then_post Final (KeptNone id) (disarm_all l) _ w (disarm_all-KeptNone id l w (unkept w.log h))
        (λ v k. tt) (λ d v k. conclude_lists d.kept d.lost v k)

  confirmed-Final :
      (runs : List Run) (earliest : ℕ) (w : World net.State)
      → All (NotDisarm id) w.log
      → Final (
          (do
            confirmed ← confirm_all [] runs earliest
            elim confirmed [
              | err f ↦ pure (err f)
              | ok done ↦ do
                ready ← ready_to_disarm [] done
                elim ready [ err f ↦ pure (err f) | ok all ↦ do d ← disarm_all all; conclude d ]
            ])
            w)
  unfolding pure
  confirmed-Final runs earliest w h =
      then_post Final (λ p. All (NotDisarm id) p.1.log) (confirm_all [] runs earliest) _ w
        (Grew-All ((confirm_all-Emits (NotDisarm id) (mild-NotDisarm id) [] runs earliest).at w) h)
        (λ v k. tt)
        (λ r v k.
          result_post Final _ _ r v (λ f q u. inr (unkept v.log k))
            (λ done q.
              then_post Final (λ p. All (NotDisarm id) p.1.log) (ready_to_disarm [] done) _ v
                (Grew-All ((ready_to_disarm-Emits (NotDisarm id) (mild-NotDisarm id) [] done).at v)
                  k)
                (λ u j. tt)
                (λ s u j.
                  result_post Final _ _ s u (λ f q' z. inr (unkept u.log j))
                    (λ all q'. disarmed-Final all u j))))

  settled-Final :
      (f : RunFailure) (w : World net.State)
      → All (NotCommit id) w.log ⊎ All (NotDisarm id) w.log
      → Final (returned (err f), w)
  settled-Final f w (inl nc) u = inl nc
  settled-Final f w (inr nd) u = inr (unkept w.log nd)

  pub change_all-Final :
      (armed : List Run) (earliest : ℕ) (w : World net.State)
      → HasDistinctIds armed
      → All (NotDisarm id) w.log
      → All (NotCommit id) w.log
      → Final (change_all armed earliest w)
  unfolding change_all pure
  change_all-Final armed earliest w d nd nc =
      then_post Final (Settled id) (configure_all [] armed earliest) _ w
        (configure_all-Settled id [] armed earliest w d (nd, inl nc)) (λ v k. tt)
        (λ r v k.
          result_post Final _ _ r v
            (λ f q. settled-Final f v (subst (λ x. Settled id (returned x, v)) q k))
            (λ runs q.
              confirmed-Final runs earliest v (subst (λ x. Settled id (returned x, v)) q k)))
