-- ===== src/Metric/Recorded.antt =====
-- The call that records a number: `setMetricValue` of internal/metric/metric.go where it succeeds, and
-- small facts on upstreams.
use access_log_exporter.Prelude.{
  ℕ, ◌≡◌, ◌≢◌, refl, ◌⊎◌, inl, inr, false, List, [], ◌∷◌, ◌++◌, Bytes, str_eq, str_eq_iff, is_empty,
  Bool-cases, Result,
}
use access_log_exporter.Float.{Float64, is_negative}
use access_log_exporter.Metric.Types.{
  Kind, counter_vec, gauge_vec, histogram_vec, Call, inc, add, observe, Metric,
}
use access_log_exporter.Metric.Types
use access_log_exporter.Metric.Act.{Frame, ok}
use access_log_exporter.Metric.Set.{set_kind}
use access_log_exporter.Metric.Upstream.{get_upstream_for_value}

-- the call that records a number
abbrev pub call_of : Kind → List Bytes → Float64 → Call
call_of counter_vec labels x = add labels x
call_of gauge_vec labels x = Types.set labels x
call_of histogram_vec labels x = observe labels x

pub set_kind-call_of :
    (kind : Kind) (x : Float64) (s : Frame)
    → (kind ≢ counter_vec) ⊎ (is_negative x ≡ false)
    → set_kind kind x s ≡ ok tt (record s { calls = s.calls ++ call_of kind s.labels x ∷ [] })
unfolding set_kind
set_kind-call_of counter_vec x s (inl h) = absurd (h refl)
set_kind-call_of counter_vec x s (inr h) = rw h refl
set_kind-call_of gauge_vec x s h = refl
set_kind-call_of histogram_vec x s h = refl

pub ne→str_eq : (s t : Bytes) → s ≢ t → str_eq s t ≡ false
ne→str_eq s t h = elim (Bool-cases (str_eq s t)) [
  | inl e ↦ absurd (h ((str_eq_iff s t).0 e))
  | inr e ↦ e
]

pub upstream_there :
    (upstreams : List Bytes) (i : ℕ) {u : Bytes}
    → get_upstream_for_value upstreams i ≡ Result.ok u
    → is_empty upstreams ≡ false
unfolding get_upstream_for_value
upstream_there [] i h = cc
upstream_there (x ∷ xs) i h = refl
