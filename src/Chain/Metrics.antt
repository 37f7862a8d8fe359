-- ===== src/Chain/Metrics.antt =====
-- crates/chain/src/metrics.rs: the gauge and the counter of a stream.
use sonic_edge.Base.{ℕ, ◌≡◌, ◌∙◌, ap, true, false, ◌∷◌, ◌++◌}
use sonic_edge.Exec.{ok, Exec, pure, lift, bind-ok, ◌>>◌}
use sonic_edge.Core.Config.{Text, text}
use sonic_edge.Core.Metrics.{Prometheus, is_metric_name, has_name}

pub record ChannelMetrics : Type 0 where
  pub queue_depth : ℕ
  pub dropped_total : ℕ

unfoldable pub depth_name : Text → Text
depth_name name = text "sonic_mempool_" ++ (name ++ text "_queue_depth")

unfoldable pub dropped_name : Text → Text
dropped_name name = text "sonic_mempool_" ++ (name ++ text "_dropped_total")

module _ (p : Prometheus) where
  unfoldable pub new : Text → Exec p.Registry ChannelMetrics
  new name = do
    lift (p.with_opts (depth_name name))
    lift (p.with_opts (dropped_name name))
    p.register (depth_name name)
    p.register (dropped_name name)
    pure (record { queue_depth = 0; dropped_total = 0 })

  registered :
      (name : Text) (r : p.Registry)
      → has_name name (p.names r) ≡ false
      → p.register name r ≡ (ok tt, (p.register name r).1)
  registered name r fresh = ap (λ o. (o, (p.register name r).1)) (p.register-fresh name r fresh)

  -- The metrics of a stream whose two names are good and new are made, and take their names.
  pub record IsMade (name : Text) (r : p.Registry) : Type 0 where
    pub after : p.Registry
    pub made : new name r ≡ (ok (record { queue_depth = 0; dropped_total = 0 }), after)
    pub taken : p.names after ≡ dropped_name name ∷ depth_name name ∷ p.names r

  pub new-IsMade :
      (name : Text) (r : p.Registry)
      → is_metric_name (depth_name name) ≡ true
      → is_metric_name (dropped_name name) ≡ true
      → has_name (depth_name name) (p.names r) ≡ false
      → has_name (dropped_name name) (depth_name name ∷ p.names r) ≡ false
      → IsMade name r
  unfolding new pure lift
  new-IsMade name r good_depth good_dropped new_depth new_dropped =
      let depth = depth_name name in
      let dropped = dropped_name name in
      let r1 = (p.register depth r).1 in
      let names1 = p.names-register depth r new_depth in
      let new_second : has_name dropped (p.names r1) ≡ false =
        ap (has_name dropped) names1 ∙ new_dropped in
      let r2 = (p.register dropped r1).1 in
      record {
        after = r2;
        made =
            bind-ok _ _ r r tt (ap (λ o. (o, r)) (p.with_opts_lem depth good_depth))
            ∙ bind-ok _ _ r r tt (ap (λ o. (o, r)) (p.with_opts_lem dropped good_dropped))
            ∙ bind-ok _ _ r r1 tt (registered depth r new_depth)
            ∙ bind-ok _ _ r1 r2 tt (registered dropped r1 new_second);
        taken = p.names-register dropped r1 new_second ∙ ap (◌∷◌ dropped) names1;
      }
