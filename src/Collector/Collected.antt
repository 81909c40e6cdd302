-- ===== src/Collector/Collected.antt =====
-- What the collector of internal/collector sends to the registry, next to what it describes.
use access_log_exporter.Prelude.{
  ℕ, ◌≡◌, refl, ap, subst, ◌∙◌, ◌⊎◌, inl, inr, Bool, List, [], ◌∷◌, ◌++◌, none, some, map, All,
  All-append, ok, Option,
}
use access_log_exporter.Float.{Float64, FloatOps}
use access_log_exporter.Config.Types.{MetricConfig}
use access_log_exporter.Useragent
use access_log_exporter.Metric.Types.{Vec, Metric}
use access_log_exporter.Metric.Describe
use access_log_exporter.Metric.Describe.{Desc, desc_of}
use access_log_exporter.Collector.Build.{Collector, new_collector}
use access_log_exporter.Collector.Describe.{
  parse_error_desc, last_received_desc, describe_all, describe, Sent, child, collect_all, collect,
}
use access_log_exporter.Collector.Workers.{System, start, Reach}
use access_log_exporter.Collector.Started.{new_collector_total}
use access_log_exporter.Collector.Described.{configured, describe_all-built, Reach-describe}

-- a description is among others
abbrev pub Among : List Desc → Desc → Type 0
Among [] d = ⊥
Among (x ∷ xs) d = (d ≡ x) ⊎ Among xs d

Among-append_left : (xs ys : List Desc) (d : Desc) → Among xs d → Among (xs ++ ys) d
Among-append_left [] ys d h = absurd h
Among-append_left (x ∷ xs) ys d (inl e) = inl e
Among-append_left (x ∷ xs) ys d (inr h) = inr (Among-append_left xs ys d h)

Among-append_right : (xs ys : List Desc) (d : Desc) → Among ys d → Among (xs ++ ys) d
Among-append_right [] ys d h = h
Among-append_right (x ∷ xs) ys d h = inr (Among-append_right xs ys d h)

module _ {A : Type 0} (children : Vec → List A) where
  -- each metric that is sent has a description among these
  abbrev pub IsDescribed : List Desc → Desc × Sent A → Type 0
  IsDescribed ds sent = Among ds sent.0

  widened :
      (xs ys : List Desc) (l : List (Desc × Sent A))
      → ((d : Desc) → Among xs d → Among ys d)
      → All (IsDescribed xs) l
      → All (IsDescribed ys) l
  widened xs ys [] f h = tt
  widened xs ys (sent ∷ l) f (p, h) = (f sent.0 p, widened xs ys l f h)

  children-IsDescribed :
      (vec : Vec) (l : List A)
      → All
          (IsDescribed (desc_of vec ∷ []))
          (map (λ (p : Desc × A). (p.0, child p.1)) (map (λ c. (desc_of vec, c)) l))
  children-IsDescribed vec [] = tt
  children-IsDescribed vec (c ∷ l) = (inl refl, children-IsDescribed vec l)

  metric-IsDescribed :
      (o : Option Vec)
      → All (IsDescribed (elim o [ none ↦ [] | some vec ↦ desc_of vec ∷ [] ])) (
          map
            (λ (p : Desc × A). (p.0, child p.1))
            (elim o [ none ↦ [] | some vec ↦ map (λ c. (desc_of vec, c)) (children vec) ]))
  metric-IsDescribed none = tt
  metric-IsDescribed (some vec) = children-IsDescribed vec (children vec)

  collect_all-IsDescribed :
      (ms : List Metric) → All (IsDescribed (describe_all ms)) (collect_all children ms)
  unfolding describe_all collect_all Describe.describe Describe.collect
  collect_all-IsDescribed [] = tt
  collect_all-IsDescribed (m ∷ ms) =
      All-append (IsDescribed (describe_all (m ∷ ms))) _ _
        (widened (Describe.describe m) (describe_all (m ∷ ms)) _
          (Among-append_left (Describe.describe m) (describe_all ms)) (metric-IsDescribed m.metric))
        (widened (describe_all ms) (describe_all (m ∷ ms)) _
          (Among-append_right (Describe.describe m) (describe_all ms)) (collect_all-IsDescribed ms))

  collect-IsDescribed : (c : Collector) → All (IsDescribed (describe c)) (collect children c)
  unfolding describe collect
  collect-IsDescribed c = (
    inl refl,
    (
      inr (inl refl),
      widened (describe_all c.metrics) (describe c) _ (λ d h. inr (inr h))
          (collect_all-IsDescribed c.metrics),
    ),
  )

built-described :
    (defs : List Float64) (parser : Useragent.Parser) (cfgs : List MetricConfig) (c : Collector)
    (warn : Bool)
    → new_collector defs (some parser) cfgs ≡ ok (c, warn)
    → describe c ≡ parse_error_desc ∷ last_received_desc ∷ map configured cfgs
unfolding describe
built-described defs parser cfgs c warn e = elim (new_collector_total defs parser cfgs) [
  | inr (x, f, _) ↦ cc
  | inl (c', warn', f, starts) ↦
      let same : c' ≡ c = cc in
      subst (λ c. describe c ≡ parse_error_desc ∷ last_received_desc ∷ map configured cfgs) same
        (ap (λ ds. parse_error_desc ∷ last_received_desc ∷ ds)
          (describe_all-built defs parser cfgs c'.metrics starts.built))
]

-- A collector that was built with a user agent parser at hand describes, in every state that it and
-- its workers reach, its own two metrics and then one for each configuration, in their order, with
-- that configuration's name, help, labels and constant labels; and whatever the vectors hold, each
-- metric that it sends has one of these descriptions.
pub Reach-IsDescribed :
    {A : Type 0} (children : Vec → List A) (fl : FloatOps) (defs : List Float64)
    (parser : Useragent.Parser) (cfgs : List MetricConfig) (c : Collector) (warn : Bool) (n : ℕ)
    {s : System}
    → new_collector defs (some parser) cfgs ≡ ok (c, warn)
    → Reach fl (start c n) s
    → (describe s.collector ≡ parse_error_desc ∷ last_received_desc ∷ map configured cfgs)
      × All (IsDescribed children (describe s.collector)) (collect children s.collector)
unfolding start
Reach-IsDescribed children fl defs parser cfgs c warn n {s} built r = (
  Reach-describe fl r ∙ built-described defs parser cfgs c warn built,
  collect-IsDescribed children s.collector,
)
