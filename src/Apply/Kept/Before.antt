-- ===== src/Apply/Kept/Before.antt =====
-- Until every device is confirmed: a run that fails there leaves each device uncommitted or armed.
use mathlib.Core.Path.{subst}
use mathlib.Core.Bool.{false≢true}
use openwrt_configurator.Prelude.{
  All-each, Text, ℕ, suc, length, Option, List, [], ◌∷◌, ◌++◌, true, false, ◌≡◌, ◌≢◌, ◌⊎◌, inl, inr,
  All, All-map, sym, ◌∙◌,
}
use openwrt_configurator.Agent.{AgentRecord}
use openwrt_configurator.Agent.Verbs.{ExecResult}
use openwrt_configurator.Agent.Verbs as Verbs
use openwrt_configurator.Apply.Io.{Outcome, returned, thrown, pure, ◌>>=◌}
use openwrt_configurator.Apply.Run.{
  Net, World, M, Run, Event, sent, Result, ok, err, PhaseFailure, Phase,
}
use openwrt_configurator.Apply.Configure.{configure_device, ensure_time_to_confirm, commit_device}
use openwrt_configurator.Apply.Network.{RunFailure}
use openwrt_configurator.Apply.Network.Phases.{
  reach, is_changed, commit_in_time, configure_all, undo,
}
use openwrt_configurator.Apply.Traces.{Emits, Grew, Grew-trans, Grew-All, IsMild, Emits-pure}
use openwrt_configurator.Apply.Traces.Phases.{
  reach-Emits, configure_device-Emits, ensure_time-Emits, commit_device-Emits,
}
use openwrt_configurator.Apply.Traces.Values.{
  Holds, Yields, SameRun, SameOrChanged, reach-SameRun, configure_device-SameRun,
  ensure_time-SameRun, commit_device-SameOrChanged,
}
use openwrt_configurator.Apply.Traces.Undo.{undo-Emits}
use openwrt_configurator.Apply.Kept.{
  NotCommit, NotDisarm, mild-NotCommit, mild-NotDisarm, text_cases, Post, then_post, result_post,
  Absent, HasDistinctIds,
}

module _ ⦃net : Net⦄ where
  -- What a committed run of this id may add.
  abbrev CommitIs : (Event → Type 0) → Text → Type 0
  CommitIs P i = (l : List AgentRecord) (r : Option ExecResult) → P (sent i (Verbs.finalise l) r)

  module _ {P : Event → Type 0} (mild : (e : Event) → IsMild e → P e) where
    SameRun-Emits :
        {f : Run → Phase Run} {id : Text} (r : Result Run PhaseFailure)
        → SameRun id r
        → ((a : Run) → a.run_id ≡ id → Emits P (f a))
        → Emits P (elim r [ err e ↦ pure (err e) | ok a ↦ f a ])
    SameRun-Emits (ok a) h k = k a h
    SameRun-Emits (err e) h k = Emits-pure (err e)

    Emits-same :
        {m : Phase Run} {f : Run → Phase Run} (id : Text)
        → Emits P m
        → Yields (SameRun id) m
        → ((a : Run) → a.run_id ≡ id → Emits P (f a))
        → Emits P (m >>= λ r. elim r [ err e ↦ pure (err e) | ok a ↦ f a ])
    unfolding ◌>>=◌ pure
    Emits-same {m} {f} id hm hy hf = record {
      at = λ w.
          then_post (λ p. Grew P w.log p.1.log) (λ p. Holds (SameRun id) p.0 × Grew P w.log p.1.log)
            m _ w (hy.at w, hm.at w) (λ v h. h.1)
            (λ r v h. Grew-trans h.1 ((SameRun-Emits r h.0 hf).at v));
    }

    -- Trying to commit a run adds commits of its id only.
    commit_in_time-Emits :
        (run : Run) (earliest before : ℕ)
        → CommitIs P run.run_id
        → Emits P (commit_in_time run earliest before)
    unfolding commit_in_time
    commit_in_time-Emits run earliest before h =
        Emits-same run.run_id (configure_device-Emits P mild run) (configure_device-SameRun run)
          (λ r e.
            Emits-same run.run_id (ensure_time-Emits P mild r earliest (suc before))
              (subst (λ i. Yields (SameRun i) (ensure_time_to_confirm r earliest (suc before))) e
                (ensure_time-SameRun r earliest (suc before)))
              (λ r' e'. commit_device-Emits P mild r' (subst (CommitIs P) (sym e') h)))

  module _ (id : Text) where
    -- The log before a device is configured: nothing of `id` is disarmed, and it is uncommitted
    -- where it is still to come.
    abbrev Inv : List Run → List Event → Type 0
    Inv runs log = All (NotDisarm id) log × (All (NotCommit id) log ⊎ Absent id runs)

    -- After a failure of `run`, that is undone with `rest`.
    abbrev Failed : Run → List Run → PhaseFailure → List Event → Type 0
    Failed run rest e log =
        All (NotDisarm id) log
        × (All (NotCommit id) log ⊎ ((is_changed e ≡ false → run.run_id ≢ id) × Absent id rest))

    -- After a commit that was tried.
    abbrev Tried : Run → List Run → Post (Result Run PhaseFailure)
    Tried run rest (thrown, w) = All (NotDisarm id) w.log
    Tried run rest (returned (ok r), w) = Inv rest w.log
    Tried run rest (returned (err e), w) = Failed run rest e w.log

    abbrev pub Settled : {A : Type 0} → Post (Result A RunFailure)
    Settled (thrown, w) = All (NotCommit id) w.log ⊎ All (NotDisarm id) w.log
    Settled (returned (ok a), w) = All (NotDisarm id) w.log
    Settled (returned (err f), w) = All (NotCommit id) w.log ⊎ All (NotDisarm id) w.log

    abbrev Either : {A : Type 0} → Post A
    Either (o, w) = All (NotCommit id) w.log ⊎ All (NotDisarm id) w.log

    undo-Either :
        (committed : List Run) (run : Run) (rest : List Run) (e : PhaseFailure)
        (w : World net.State)
        → Failed run rest e w.log
        → Either (undo committed run rest e w)
    undo-Either committed run rest e w (nd, inl nc) = inl (
        Grew-All
          ((undo-Emits (NotCommit id) (mild-NotCommit id) committed run rest e (λ _ r. tt)
              (All-each rest (λ s r. tt))).at
            w)
          nc)
    undo-Either committed run rest e w (nd, inr (h, a)) = inr (
        Grew-All
          ((undo-Emits (NotDisarm id) (mild-NotDisarm id) committed run rest e (λ f r. h f)
              (All-map (λ (s : Run). s.run_id ≢ id) _ (λ s k r. k) rest a)).at
            w)
          nd)

    undo-Settled :
        (A : Type 0) (committed : List Run) (run : Run) (rest : List Run) (e : PhaseFailure)
        (w : World net.State)
        → Failed run rest e w.log
        → Settled {A = A} ((undo committed run rest e >>= λ f. pure (err f)) w)
    unfolding pure
    undo-Settled A committed run rest e w h =
        then_post Settled Either (undo committed run rest e) (λ f. pure (err f)) w
          (undo-Either committed run rest e w h) (λ v k. k) (λ f v k. k)

    -- A failure that changed nothing came before the commit was sent.
    abbrev Unchanged : Post (Result Run PhaseFailure)
    Unchanged (returned (err e), w) = (is_changed e ≡ true) ⊎ All (NotCommit id) w.log
    Unchanged (_, w) = Unit

    commit_device-Unchanged : (run : Run) (w : World net.State) → Unchanged (commit_device run w)
    commit_device-Unchanged run w =
        by_value (commit_device run w) ((commit_device-SameOrChanged run).at w)
      where
        by_value :
            (p : Outcome (Result Run PhaseFailure) × World net.State)
            → Holds (SameOrChanged run.run_id) p.0
            → Unchanged p
        by_value (returned (ok r), v) h = tt
        by_value (returned (err e), v) h = inl h
        by_value (thrown, v) h = tt

    abbrev Uncommitted : {A : Type 0} → Post A
    Uncommitted (o, w) = All (NotCommit id) w.log

    commit_in_time-Unchanged :
        (run : Run) (earliest before : ℕ) (w : World net.State)
        → All (NotCommit id) w.log
        → Unchanged (commit_in_time run earliest before w)
    unfolding commit_in_time pure
    commit_in_time-Unchanged run earliest before w nc =
        then_post Unchanged Uncommitted (configure_device run) _ w
          (Grew-All ((configure_device-Emits (NotCommit id) (mild-NotCommit id) run).at w) nc)
          (λ v k. tt)
          (λ r v k.
            result_post Unchanged _ _ r v (λ e q. inr k)
              (λ a q.
                then_post Unchanged Uncommitted (ensure_time_to_confirm a earliest (suc before)) _ v
                  (Grew-All
                    ((ensure_time-Emits (NotCommit id) (mild-NotCommit id) a earliest
                        (suc before)).at
                      v)
                    k)
                  (λ u k'. tt)
                  (λ t u k'.
                    result_post Unchanged _ _ t u (λ e q'. inr k')
                      (λ b q'. commit_device-Unchanged b u))))

    -- A device of another run.
    Tried_other :
        (run : Run) (rest : List Run) (w : World net.State)
        (p : Outcome (Result Run PhaseFailure) × World net.State)
        → run.run_id ≢ id
        → Grew (NotDisarm id) w.log p.1.log
        → Grew (NotCommit id) w.log p.1.log
        → Inv (run ∷ rest) w.log
        → Tried run rest p
    Tried_other run rest w (thrown, v) n gd gc (nd, i) = Grew-All gd nd
    Tried_other run rest w (returned (ok r), v) n gd gc (nd, inl nc) =
        (Grew-All gd nd, inl (Grew-All gc nc))
    Tried_other run rest w (returned (ok r), v) n gd gc (nd, inr a) = (Grew-All gd nd, inr a.1)
    Tried_other run rest w (returned (err e), v) n gd gc (nd, inl nc) =
        (Grew-All gd nd, inl (Grew-All gc nc))
    Tried_other run rest w (returned (err e), v) n gd gc (nd, inr a) =
        (Grew-All gd nd, inr ((λ f. n), a.1))

    -- The device of the run itself, whose id no other has.
    Tried_itself :
        (run : Run) (rest : List Run) (w : World net.State)
        (p : Outcome (Result Run PhaseFailure) × World net.State)
        → Absent id rest
        → Grew (NotDisarm id) w.log p.1.log
        → Unchanged p
        → All (NotDisarm id) w.log
        → Tried run rest p
    Tried_itself run rest w (thrown, v) a gd u nd = Grew-All gd nd
    Tried_itself run rest w (returned (ok r), v) a gd u nd = (Grew-All gd nd, inr a)
    Tried_itself run rest w (returned (err e), v) a gd (inl c) nd =
        (Grew-All gd nd, inr ((λ f. elim (false≢true (sym f ∙ c)) [ ]), a))
    Tried_itself run rest w (returned (err e), v) a gd (inr nc) nd = (Grew-All gd nd, inl nc)

    commit_in_time-Tried :
        (run : Run) (rest : List Run) (earliest before : ℕ) (w : World net.State)
        → (run.run_id ≡ id → Absent id rest)
        → Inv (run ∷ rest) w.log
        → Tried run rest (commit_in_time run earliest before w)
    commit_in_time-Tried run rest earliest before w distinct h = by_id (text_cases run.run_id id) h
      where
        disarms : Grew (NotDisarm id) w.log (commit_in_time run earliest before w).1.log
        disarms = (commit_in_time-Emits (mild-NotDisarm id) run earliest before (λ l r. tt)).at w

        by_id :
            ((run.run_id ≡ id) ⊎ (run.run_id ≢ id))
            → Inv (run ∷ rest) w.log
            → Tried run rest (commit_in_time run earliest before w)
        by_id (inl e) (nd, inl nc) =
            Tried_itself run rest w _ (distinct e) disarms
              (commit_in_time-Unchanged run earliest before w nc) nd
        by_id (inl e) (nd, inr a) = elim (a.0 e) [ ]
        by_id (inr n) i =
            Tried_other run rest w _ n disarms
              ((commit_in_time-Emits (mild-NotCommit id) run earliest before (λ l r. n)).at w) i

    Inv-Failed :
        (run : Run) (rest : List Run) (e : PhaseFailure) (log : List Event)
        → Inv (run ∷ rest) log
        → Failed run rest e log
    Inv-Failed run rest e log (nd, inl nc) = (nd, inl nc)
    Inv-Failed run rest e log (nd, inr a) = (nd, inr ((λ f. a.0), a.1))

    Inv-same :
        (run armed : Run) (rest : List Run) (log : List Event)
        → run.run_id ≡ armed.run_id
        → Inv (armed ∷ rest) log
        → Inv (run ∷ rest) log
    Inv-same run armed rest log e (nd, inl nc) = (nd, inl nc)
    Inv-same run armed rest log e (nd, inr a) = (nd, inr ((λ f. a.0 (sym e ∙ f)), a.1))

    -- A mild action keeps what held of the log.
    Inv-mild :
        {A : Type 0} (runs : List Run) (m : M A) (w : World net.State)
        → Emits (NotDisarm id) m
        → Emits (NotCommit id) m
        → Inv runs w.log
        → Inv runs (m w).1.log
    Inv-mild runs m w gd gc (nd, inl nc) = (Grew-All (gd.at w) nd, inl (Grew-All (gc.at w) nc))
    Inv-mild runs m w gd gc (nd, inr a) = (Grew-All (gd.at w) nd, inr a)

    -- The device's own turn, with what is shown of the devices after it.
    commit_next-Settled :
        (committed : List Run) (armed run : Run) (rest : List Run) (earliest : ℕ)
        (v : World net.State)
        → HasDistinctIds (armed ∷ rest)
        → ((a : Run) (u : World net.State)
            → Inv rest u.log
            → Settled (configure_all (committed ++ a ∷ []) rest earliest u))
        → run.run_id ≡ armed.run_id
        → Inv (armed ∷ rest) v.log
        → Settled (
            (do
              result ← commit_in_time run earliest (length committed)
              elim result [
                | ok r ↦ configure_all (committed ++ r ∷ []) rest earliest
                | err e ↦ do f ← undo committed run rest e; pure (err f)
              ])
              v)
    unfolding pure
    commit_next-Settled committed armed run rest earliest v d next same h =
        then_post Settled (Tried run rest) (commit_in_time run earliest (length committed)) _ v
          (commit_in_time-Tried run rest earliest (length committed) v
            (λ e. subst (λ i. Absent i rest) (sym same ∙ e) d.0)
            (Inv-same run armed rest v.log same h))
          (λ u k. inr k)
          (λ r u k.
            result_post Settled _ _ r u
              (λ e q.
                undo-Settled (List Run) committed run rest e u
                  (subst (λ (x : Result Run PhaseFailure). Tried run rest (returned x, u)) q k))
              (λ a q.
                next a u
                  (subst (λ (x : Result Run PhaseFailure). Tried run rest (returned x, u)) q k)))

    pub configure_all-Settled :
        (committed rest : List Run) (earliest : ℕ) (w : World net.State)
        → HasDistinctIds rest
        → Inv rest w.log
        → Settled (configure_all committed rest earliest w)
    unfolding configure_all pure
    configure_all-Settled committed [] earliest w d h = h.0
    configure_all-Settled committed (armed ∷ rest) earliest w d h =
        then_post Settled (λ p. Holds (SameRun armed.run_id) p.0 × Inv (armed ∷ rest) p.1.log)
          (reach armed) _ w
          (
            (reach-SameRun armed).at w,
            Inv-mild (armed ∷ rest) (reach armed) w (reach-Emits _ (mild-NotDisarm id) armed)
                (reach-Emits _ (mild-NotCommit id) armed) h,
          )
          (λ v k. inr k.1.0)
          (λ r v k.
            result_post Settled _ _ r v
              (λ e q.
                undo-Settled (List Run) committed armed rest e v
                  (Inv-Failed armed rest e v.log k.1))
              (λ run q.
                commit_next-Settled committed armed run rest earliest v d
                  (λ a u. configure_all-Settled (committed ++ a ∷ []) rest earliest u d.1)
                  (subst (SameRun armed.run_id) q k.0) k.1))
