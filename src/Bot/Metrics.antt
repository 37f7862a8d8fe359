-- ===== src/Bot/Metrics.antt =====
-- crates/bot/src/metrics.rs: the metrics of the bot, and the server that shows them.
pub mod Server
use sonic_edge.Base.{ℕ, ◌≡◌, ◌∙◌, ap, refl, true, false, List, [], ◌∷◌, bytes_eq}
use sonic_edge.Exec.{Result, ok, err, panic, Exec, pure, lift, bind-ok, ◌>>=◌, ◌>>◌}
use sonic_edge.Core.Config.{Text, text}
use sonic_edge.Core.Metrics
use sonic_edge.Core.Metrics.{Prometheus, is_metric_name, has_name}
use sonic_edge.Chain.Metrics as ChannelMetrics
use sonic_edge.Chain.Metrics.{ChannelMetrics, depth_name, dropped_name, IsMade, new-IsMade}

unfoldable pub dedup_hits_name : Text
dedup_hits_name = text "sonic_mempool_dedup_hits_total"

-- The names of a stream's metrics before those taken already.
abbrev pub names_of : Text → List Text → List Text
names_of name taken = dropped_name name ∷ depth_name name ∷ taken

module _ (p : Prometheus) where
  pub record BotMetrics : Type 0 where
    pub metrics : Metrics.Metrics p
    pub pending : ChannelMetrics
    pub txpool : ChannelMetrics
    pub heads : ChannelMetrics
    pub dedup_hits : ℕ

  -- The registry is filled in this order.
  unfoldable pub fill : Exec p.Registry (ChannelMetrics × ChannelMetrics × ChannelMetrics)
  fill = do
    pending ← ChannelMetrics.new p (text "pending")
    txpool ← ChannelMetrics.new p (text "txpool")
    heads ← ChannelMetrics.new p (text "heads")
    lift (p.with_opts dedup_hits_name)
    p.register dedup_hits_name
    pure (pending, txpool, heads)

  abbrev with_registry :
      Result (ChannelMetrics × ChannelMetrics × ChannelMetrics) × p.Registry → Result BotMetrics
  with_registry (ok (pending, txpool, heads), registry) = ok (record {
    metrics = record { registry = registry };
    pending = pending;
    txpool = txpool;
    heads = heads;
    dedup_hits = 0;
  })
  with_registry (err e, registry) = err e
  with_registry (panic, registry) = panic

  unfoldable pub new : Result BotMetrics
  unfolding fill Metrics.new
  new = with_registry (fill (Metrics.new p).registry)

  -- The metrics of a stream whose names are not among the names taken.
  stream :
      (name : Text) (r : p.Registry) (taken : List Text)
      → p.names r ≡ taken
      → is_metric_name (depth_name name) ≡ true
      → is_metric_name (dropped_name name) ≡ true
      → has_name (depth_name name) taken ≡ false
      → has_name (dropped_name name) (depth_name name ∷ taken) ≡ false
      → IsMade p name r
  stream name r taken same good_depth good_dropped new_depth new_dropped =
      new-IsMade p name r good_depth good_dropped (ap (has_name (depth_name name)) same ∙ new_depth)
        (ap (λ ns. has_name (dropped_name name) (depth_name name ∷ ns)) same ∙ new_dropped)

  -- `BotMetrics::new` never fails: the seven names are good and differ, and each is registered
  -- once; the counter of duplicates begins at zero.
  pub new-ok :
      (m : BotMetrics) × (new ≡ ok m)
      × (m.dedup_hits ≡ 0)
      × (p.names m.metrics.registry
          ≡ dedup_hits_name
            ∷ names_of (text "heads") (names_of (text "txpool") (names_of (text "pending") [])))
  unfolding new fill pure lift depth_name dropped_name dedup_hits_name bytes_eq
  new-ok =
      let taken1 = names_of (text "pending") [] in
      let taken2 = names_of (text "txpool") taken1 in
      let taken3 = names_of (text "heads") taken2 in
      let r0 = p.new_registry in
      let pending = stream (text "pending") r0 [] p.names-new refl refl refl refl in
      let names1 = pending.taken ∙ ap (names_of (text "pending")) p.names-new in
      let txpool = stream (text "txpool") pending.after taken1 names1 refl refl refl refl in
      let names2 = txpool.taken ∙ ap (names_of (text "txpool")) names1 in
      let heads = stream (text "heads") txpool.after taken2 names2 refl refl refl refl in
      let names3 = heads.taken ∙ ap (names_of (text "heads")) names2 in
      let r3 = heads.after in
      let fresh : has_name dedup_hits_name (p.names r3) ≡ false =
        ap (has_name dedup_hits_name) names3 in
      let r4 = (p.register dedup_hits_name r3).1 in
      let filled =
        bind-ok _ _ r0 pending.after _ pending.made
        ∙ bind-ok _ _ pending.after txpool.after _ txpool.made
        ∙ bind-ok _ _ txpool.after r3 _ heads.made
        ∙ bind-ok _ _ r3 r3 tt (ap (λ o. (o, r3)) (p.with_opts_lem dedup_hits_name refl))
        ∙ bind-ok _ _ r3 r4 tt (ap (λ o. (o, r4)) (p.register-fresh dedup_hits_name r3 fresh)) in
      (
        _,
        ap with_registry filled,
        refl,
        p.names-register dedup_hits_name r3 fresh ∙ ap (◌∷◌ dedup_hits_name) names3,
      )
